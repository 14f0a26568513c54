-- ===== src/Chat/Context.antt =====
-- The lines that go into a moderation record beside the reported one (src/ws_lobby.rs).
use recomp_net_server.Common.{
  ℕ, zero, suc, ◌-◌, ◌≤◌, ◌≡◌, inl, inr, refl, sym, ap, ◌∙◌, some, List, [], ◌∷◌, ◌++◌, ◌⊎◌, ◌&&◌,
  map, ◌==◌, nat_eq, length, retain, get_elem?, arith, leb, Bool-cases, Option-cases,
}
use recomp_net_server.Common.Text.{Text, text_eq, take}
use recomp_net_server.Common.Bytes.{drop, length-drop, append_assoc}
use recomp_net_server.Chat.{ChatLine, ChatLog, position, chat_with_context, context_of, join, said}

module _ {ℓ} {A : Type ℓ} where
  append-take-drop : (n : ℕ) (xs : List A) → xs ≡ take n xs ++ drop n xs
  append-take-drop zero xs = refl
  append-take-drop (suc n) [] = refl
  append-take-drop (suc n) (x ∷ xs) = ap (λ ys. x ∷ ys) (append-take-drop n xs)

  split_at :
      (at : ℕ) (xs : List A) (x : A)
      → get_elem? xs at ≡ some x
      → (xs ≡ take at xs ++ (x ∷ drop (suc at) xs)) × (length (take at xs) ≡ at)
  split_at at [] x h = absurd (ground arith)
  split_at zero (y ∷ xs) x h = (ap (λ z. z ∷ xs) (ground (arith, h)), refl)
  split_at (suc at) (y ∷ xs) x h =
      let (there, len) = split_at at xs x h in (ap (λ zs. y ∷ zs) there, ap suc len)

-- What a found line stands on: its place, itself and its context.
found_at :
    (g : ChatLog) (id : ℕ) (line : ChatLine) (context : Text)
    → chat_with_context g id ≡ some (line, context)
    → (at : ℕ) × (position id g.chat_ring ≡ some at)
      × (get_elem? g.chat_ring at ≡ some line)
      × (context ≡ join (map said (context_of g.chat_ring at line)))
unfolding chat_with_context
found_at g id line context e = elim (Option-cases (position id g.chat_ring)) [
  | inl gone ↦ absurd (ground arith)
  | inr (at, there) ↦ (elim (Option-cases (get_elem? g.chat_ring at)) [
    | inl off ↦ absurd (ground arith)
    | inr (l, here) ↦
        let both : some (l, join (map said (context_of g.chat_ring at l))) ≡ some (line, context) =
          sym (rw (there, here) refl) ∙ e in
        let own : l ≡ line = ground (arith, both) in
        let same : context ≡ join (map said (context_of g.chat_ring at l)) = ground (arith, both) in
        (
          at,
          there,
          here ∙ ap some own,
          same ∙ ap (λ k. join (map said (context_of g.chat_ring at k))) own,
        )
  ])
]

-- The ring is `older`, then `recent`, then the line and what follows it; `recent` has six lines, or fewer when
-- nothing is older; the context is the text of those of `recent` that are of the line's room.
unfoldable pub HasContext : List ChatLine → ChatLine → Text → Type 0
HasContext ring line context =
    (older : List ChatLine) × (recent : List ChatLine) × (later : List ChatLine) × (ring
      ≡ older ++ (recent ++ (line ∷ later)))
    × ((length recent ≡ 6) ⊎ ((length recent ≤ 6) × (older ≡ [])))
    × (context
        ≡ join
            (map said (retain (λ l. l.scope == line.scope && l.lobby_id == line.lobby_id) recent)))

older-empty : (at : ℕ) (ring : List ChatLine) → at ≤ 6 → take (at - 6) ring ≡ []
older-empty at ring h =
    let none_older : at - 6 ≡ 0 = omega arith in ap (λ n. take n ring) none_older

-- The context that goes with a found line is the text of those lines, among the last six that stand before
-- the line in the ring (all of them when there are fewer), that have the line's scope and lobby.
pub chat_with_context-HasContext :
    (g : ChatLog) (id : ℕ) (line : ChatLine) (context : Text)
    → chat_with_context g id ≡ some (line, context)
    → HasContext g.chat_ring line context
unfolding HasContext context_of
chat_with_context-HasContext g id line context e =
    let (at, _, here, said_as) = found_at g id line context e in
    let before = take at g.chat_ring in
    let (split, len) = split_at at g.chat_ring line here in
    let recent = drop (at - 6) before in
    let all = append-take-drop (at - 6) before in
    (
      take (at - 6) before,
      recent,
      drop (suc at) g.chat_ring,
      split
          ∙ ap (λ ls. ls ++ (line ∷ drop (suc at) g.chat_ring)) all
          ∙ append_assoc (take (at - 6) before) recent (line ∷ drop (suc at) g.chat_ring),
      elim (Bool-cases (leb at 6)) [
        | inl few ↦ inr (
          omega (arith, length-drop (at - 6) before, len),
          older-empty at before (ground (arith, few)),
        )
        | inr many ↦ inl (ground (arith, length-drop (at - 6) before, len, many))
      ],
      said_as,
    )
