-- ===== src/Metrics/Bounded.antt =====
-- The set of labels stays bounded, however many names the clients invent (src/metrics.rs).
use recomp_net_server.Common.{
  ℕ, suc, ◌≤◌, ◌≡◌, ◌⊎◌, inl, inr, refl, subst, ap, none, some, List, [], ◌∷◌, true, ◌||◌, leb,
  ◌==◌, length, arith, Bool-cases, Option-cases, is_some,
}
use recomp_net_server.Common.Map
use recomp_net_server.Common.Map.{get-insert, get-insert_self}
use recomp_net_server.Common.Text.{Text, text_eq, text_beq_iff, is_empty}
use recomp_net_server.Metrics.{
  GameLabels, look_up, game_label, normalize_game, game_label_other, game_label_unknown,
}

abbrev pub Known : Type 0
Known = List (Text × Text)

pub length-insert :
    (k v : Text) (m : Known)
    → (length (Map.insert k v m) ≤ suc (length m))
      × (is_some (Map.get k m) ≡ true → length (Map.insert k v m) ≡ length m)
unfolding Map.insert Map.get
length-insert k v [] = (omega arith, λ h. absurd (ground arith))
length-insert k v ((j, w) ∷ m) =
    let (le, same) = length-insert k v m in
    (elim (Bool-cases (j == k)) [
      | inl y ↦ rw y (omega arith, λ h. refl)
      | inr n ↦ rw n (omega arith, λ h. ap suc (same h))
    ])

-- A table grew into another.
abbrev pub Grew : GameLabels → GameLabels → Type 0
Grew g g' =
    (name label : Text) → Map.get name g.known ≡ some label → Map.get name g'.known ≡ some label

-- Each name is known under itself.
abbrev pub Keyed : Known → Type 0
Keyed known = (name label : Text) → Map.get name known ≡ some label → label ≡ name

pub insert-Keyed : (k : Text) (m : Known) → Keyed m → Keyed (Map.insert k k m)
insert-Keyed k m h name label e = elim (Bool-cases (k == name)) [
  | inl y ↦ let (same, _) = text_beq_iff k name in ground (arith, same y, get-insert k name k m)
  | inr n ↦ h name label (ground (arith, get-insert k name k m))
]

-- A label that a call gave: one of the two fold targets, or a name that the table has.
unfoldable pub IsGiven : GameLabels → Text → Type 0
IsGiven g label =
    (label ≡ game_label_unknown)
    ⊎ ((label ≡ game_label_other) ⊎ (Map.get label g.known ≡ some label))

pub IsGiven-Grew :
    (g g' : GameLabels) (label : Text) → Grew g g' → IsGiven g label → IsGiven g' label
unfolding IsGiven
IsGiven-Grew g g' label h (inl a) = inl a
IsGiven-Grew g g' label h (inr (inl b)) = inr (inl b)
IsGiven-Grew g g' label h (inr (inr c)) = inr (inr (h label label c))

look_up-IsGiven :
    (g : GameLabels) (name label : Text)
    → Keyed g.known
    → look_up g name ≡ some label
    → IsGiven g label
unfolding IsGiven look_up
look_up-IsGiven g name label k h = elim (Option-cases (Map.get name g.known)) [
  | inl none' ↦ (elim (Bool-cases (g.strict || leb g.limit (length g.known))) [
    | inl y ↦ let e = rw (look_up, none', y) at h in inr (inl (ground arith))
    | inr n ↦ let never = rw (look_up, none', n) at h in absurd (ground arith)
  ])
  | inr (l, e) ↦
      let same : l ≡ label = let q = rw (look_up, e) at h in ground arith in
      let own : label ≡ name = k name label (ground arith) in inr (inr (ground arith))
]

unknown-IsGiven : (g : GameLabels) → IsGiven g game_label_unknown
unfolding IsGiven
unknown-IsGiven g = inl refl

-- What one call keeps, and gives.
unfoldable pub Keeps : GameLabels → ℕ → GameLabels × Text → Type 0
Keeps g' n r =
    Grew g' r.0 × Keyed r.0.known × (length r.0.known ≤ n) × (r.0.limit ≤ n) × IsGiven r.0 r.1

module _ (g g' : GameLabels) (raw : Text) (n : ℕ) (grew : Grew g g') (kg : Keyed g.known)
    (kg' : Keyed g'.known) (le : length g'.known ≤ n) (lim : g'.limit ≤ n) where
  name : Text
  name = normalize_game raw

  same_table : (label : Text) → IsGiven g' label → Keeps g' n (g', label)
  unfolding Keeps
  same_table label h = (λ a b c. c, kg', le, lim, h)

  abbrev learned : GameLabels
  learned = record g' { known = Map.insert name name g'.known }

  grows : look_up g' name ≡ none → Keeps g' n (learned, name)
  unfolding Keeps IsGiven look_up
  grows h = elim (Option-cases (Map.get name g'.known)) [
    | inr (l, e) ↦ let never = rw (look_up, e) at h in absurd (ground arith)
    | inl new ↦ (elim (Bool-cases (g'.strict || leb g'.limit (length g'.known))) [
      | inl y ↦ let never = rw (look_up, new, y) at h in absurd (ground arith)
      | inr room ↦
          let (longer, _) = length-insert name name g'.known in
          (
            λ a b c. elim (Bool-cases (name == a)) [
              | inl y ↦
                  let (same, _) = text_beq_iff name a in absurd (ground (arith, same y, new, c))
              | inr n' ↦ ground (arith, get-insert name a name g'.known, n', c)
            ],
            insert-Keyed name g'.known kg',
            ground (arith, longer),
            lim,
            inr (inr (get-insert_self name name g'.known)),
          )
    ])
  ]

  pub game_label-Keeps : Keeps g' n (game_label g g' raw)
  unfolding game_label name
  game_label-Keeps = elim (Bool-cases (is_empty name)) [
    | inl empty ↦
        subst (Keeps g' n) {x = (g', game_label_unknown)} {y = game_label g g' raw}
          (rw (game_label, empty) refl) (same_table game_label_unknown (unknown-IsGiven g'))
    | inr named ↦ (elim (Option-cases (look_up g name)) [
      | inr (l, e) ↦
          subst (Keeps g' n) {x = (g', l)} {y = game_label g g' raw}
            (rw (game_label, named, e) refl)
            (same_table l (IsGiven-Grew g g' l grew (look_up-IsGiven g name l kg e)))
      | inl miss ↦ (elim (Option-cases (look_up g' name)) [
        | inr (l, e) ↦
            subst (Keeps g' n) {x = (g', l)} {y = game_label g g' raw}
              (rw (game_label, named, miss, e) refl)
              (same_table l (look_up-IsGiven g' name l kg' e))
        | inl miss' ↦
            subst (Keeps g' n) {x = (learned, name)} {y = game_label g g' raw}
              (rw (game_label, named, miss, miss') refl) (grows miss')
      ])
    ])
  ]
