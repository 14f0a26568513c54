-- ===== src/Chat/Ring.antt =====
-- How long a relayed line stays reportable (src/ws_lobby.rs).
use mathlib.Core.Option.{map as map_option}
use recomp_net_server.Common.{
  ℕ, ◌+◌, ◌≤◌, ◌≡◌, inl, inr, refl, sym, subst, ◌∙◌, Option, some, List, [], ◌∷◌, ◌++◌, true, false,
  ltb, ◌==◌, nat_eq, if◌then◌else◌, length, length-append, get_elem?, arith, Bool-cases,
  Option-cases,
}
use recomp_net_server.Common.Options.{◌>>=◌}
use recomp_net_server.Chat.{ChatLine, ChatLog, pop_old, remember_chat, position, chat_with_context}

-- The ids of the ring run without a gap up to the next id.
unfoldable pub Runs : ℕ → List ChatLine → Type 0
Runs n [] = Unit
Runs n (l ∷ ring) = (l.id + length (l ∷ ring) ≡ n) × Runs n ring

unfoldable pub IsLog : ChatLog → Type 0
IsLog g = Runs g.next_chat_id g.chat_ring × (length g.chat_ring ≤ 1000)

Runs-append :
    (n : ℕ) (ring : List ChatLine) (l : ChatLine)
    → Runs n ring
    → l.id ≡ n
    → Runs (n + 1) (ring ++ (l ∷ []))
unfolding Runs
Runs-append n [] l h e = (omega arith, tt)
Runs-append n (x ∷ ring) l (a, h) e =
    (omega (arith, length-append ring (l ∷ [])), Runs-append n ring l h e)

Runs-pop_old :
    (n : ℕ) (ring : List ChatLine)
    → Runs n ring
    → Runs n (pop_old ring) × (length (pop_old ring) ≤ 1000)
unfolding Runs pop_old
Runs-pop_old n [] h = (tt, omega arith)
Runs-pop_old n (l ∷ ring) (a, h) = elim (Bool-cases (ltb 1000 (length (l ∷ ring)))) [
  | inl over ↦ rw over (Runs-pop_old n ring h)
  | inr fits ↦ rw fits ((a, h), ground arith)
]

-- Remembering a line keeps at most 1000 lines, with ids that run without a gap up to the next id.
pub remember_chat-IsLog : (g : ChatLog) (line : ChatLine) → IsLog g → IsLog (remember_chat g line).0
unfolding IsLog remember_chat
remember_chat-IsLog g line (runs, le) =
    Runs-pop_old (g.next_chat_id + 1) _
      (Runs-append g.next_chat_id g.chat_ring (record line { id = g.next_chat_id }) runs refl)

-- The line with an id.
unfoldable pub line_of : ℕ → List ChatLine → Option ChatLine
line_of id ring = position id ring >>= λ at. get_elem? ring at

line_of-cons :
    (id : ℕ) (l : ChatLine) (ring : List ChatLine)
    → line_of id (l ∷ ring) ≡ (if l.id == id then some l else line_of id ring)
unfolding line_of position
line_of-cons id l ring = elim (Bool-cases (l.id == id)) [
  | inl y ↦ rw y refl
  | inr n ↦ (elim (Option-cases (position id ring)) [
    | inl gone ↦ rw (n, gone) refl
    | inr (at, e) ↦ rw (n, e) refl
  ])
]

pub line_of-id :
    (id : ℕ) (ring : List ChatLine) (l : ChatLine) → line_of id ring ≡ some l → l.id ≡ id
unfolding line_of position
line_of-id id [] l e = absurd (ground arith)
line_of-id id (x ∷ ring) l e = elim (Bool-cases (x.id == id)) [
  | inl at ↦
      let first : line_of id (x ∷ ring) ≡ some x = line_of-cons id x ring ∙ rw at refl in
      let both : some x ≡ some l = sym first ∙ e in
      let own : x ≡ l = ground (arith, both) in
      subst (λ k. k.id ≡ id) {x = x} {y = l} own (ground arith)
  | inr past ↦ line_of-id id ring l (sym (line_of-cons id x ring ∙ rw past refl) ∙ e)
]

line_of-append :
    (id : ℕ) (l : ChatLine) (ring : List ChatLine) (x : ChatLine)
    → line_of id ring ≡ some l
    → line_of id (ring ++ (x ∷ [])) ≡ some l
unfolding line_of position
line_of-append id l [] x h = absurd (ground arith)
line_of-append id l (y ∷ ring) x h = elim (Bool-cases (y.id == id)) [
  | inl at ↦
      line_of-cons id y (ring ++ (x ∷ [])) ∙ rw at (sym (line_of-cons id y ring ∙ rw at refl) ∙ h)
  | inr past ↦
      line_of-cons id y (ring ++ (x ∷ []))
      ∙ rw past (line_of-append id l ring x (sym (line_of-cons id y ring ∙ rw past refl) ∙ h))
]

-- What is dropped has an id that is 1000 or more behind.
line_of-pop_old :
    (n id : ℕ) (l : ChatLine) (ring : List ChatLine)
    → Runs n ring
    → n ≤ id + 1000
    → line_of id ring ≡ some l
    → line_of id (pop_old ring) ≡ some l
unfolding Runs pop_old
line_of-pop_old n id l [] r h e = e
line_of-pop_old n id l (x ∷ ring) (a, r) h e = elim (Bool-cases (ltb 1000 (length (x ∷ ring)))) [
  | inr fits ↦ rw fits e
  | inl over ↦
      let past : (x.id == id) ≡ false = ground arith in
      rw over (line_of-pop_old n id l ring r h (sym (line_of-cons id x ring ∙ rw past refl) ∙ e))
]

line_of-last :
    (n : ℕ) (ring : List ChatLine) (l : ChatLine)
    → Runs n ring
    → l.id ≡ n
    → line_of n (ring ++ (l ∷ [])) ≡ some l
unfolding Runs
line_of-last n [] l r e =
    let at : (l.id == n) ≡ true = ground arith in line_of-cons n l [] ∙ rw at refl
line_of-last n (x ∷ ring) l (a, r) e =
    let past : (x.id == n) ≡ false = ground arith in
    line_of-cons n x (ring ++ (l ∷ [])) ∙ rw past (line_of-last n ring l r e)

-- Lines one after the other.
unfoldable pub remember_all : ChatLog → List ChatLine → ChatLog
remember_all g [] = g
remember_all g (line ∷ lines) = remember_all (remember_chat g line).0 lines

line_of-remember_all :
    (g : ChatLog) (lines : List ChatLine) (id : ℕ) (l : ChatLine)
    → IsLog g
    → g.next_chat_id + length lines ≤ id + 1000
    → line_of id g.chat_ring ≡ some l
    → line_of id (remember_all g lines).chat_ring ≡ some l
unfolding remember_all IsLog remember_chat
line_of-remember_all g [] id l log h e = e
line_of-remember_all g (line ∷ lines) id l log h e =
    let (runs, _) = log in
    let own = record line { id = g.next_chat_id } in
    let next = remember_chat-IsLog g line log in
    line_of-remember_all (remember_chat g line).0 lines id l next (omega arith) (
      line_of-pop_old (g.next_chat_id + 1) id l (g.chat_ring ++ (own ∷ []))
        (Runs-append g.next_chat_id g.chat_ring own runs refl) (omega arith)
        (line_of-append id l g.chat_ring own e))

pub chat_with_context-line_of :
    (g : ChatLog) (id : ℕ)
    → map_option (λ found. found.0) (chat_with_context g id) ≡ line_of id g.chat_ring
unfolding chat_with_context line_of
chat_with_context-line_of g id = elim (Option-cases (position id g.chat_ring)) [
  | inl gone ↦ rw gone refl
  | inr (at, e) ↦ rw e (elim (Option-cases (get_elem? g.chat_ring at)) [
    | inl off ↦ rw off refl
    | inr (line, there) ↦ rw there refl
  ])
]

remember_chat-line_of :
    (g : ChatLog) (line : ChatLine)
    → IsLog g
    → line_of g.next_chat_id (remember_chat g line).0.chat_ring
      ≡ some (record line { id = g.next_chat_id })
unfolding IsLog remember_chat
remember_chat-line_of g line (runs, le) =
    let own = record line { id = g.next_chat_id } in
    line_of-pop_old (g.next_chat_id + 1) g.next_chat_id own (g.chat_ring ++ (own ∷ []))
      (Runs-append g.next_chat_id g.chat_ring own runs refl) (omega arith)
      (line_of-last g.next_chat_id g.chat_ring own runs refl)

pub remember_chat-ids :
    (g : ChatLog) (line : ChatLine)
    → ((remember_chat g line).0.next_chat_id ≡ g.next_chat_id + 1)
      × ((remember_chat g line).1 ≡ g.next_chat_id)
unfolding remember_chat
remember_chat-ids g line = (refl, refl)

-- In a log whose ids run without a gap, a line that was relayed stays reportable for the 999 lines after
-- it: its id finds it, as it was relayed, however many lines below that number follow.
pub remember_chat-found :
    (g : ChatLog) (line : ChatLine) (later : List ChatLine)
    → IsLog g
    → length later ≤ 999
    → map_option
        (λ found. found.0)
        (chat_with_context (remember_all (remember_chat g line).0 later) g.next_chat_id)
      ≡ some (record line { id = g.next_chat_id })
remember_chat-found g line later log h =
    let (next, _) = remember_chat-ids g line in
    chat_with_context-line_of (remember_all (remember_chat g line).0 later) g.next_chat_id
    ∙ line_of-remember_all (remember_chat g line).0 later g.next_chat_id
        (record line { id = g.next_chat_id }) (remember_chat-IsLog g line log) (omega arith)
        (remember_chat-line_of g line log)
