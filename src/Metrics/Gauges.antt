-- ===== src/Metrics/Gauges.antt =====
-- The gauges of live matches of src/metrics.rs.
use recomp_net_server.Common.{
  ℕ, ◌+◌, ◌≡◌, inl, inr, refl, sym, ◌∙◌, Option, none, some, List, [], ◌∷◌, ◌++◌, Bool, true, false,
  not, ◌&&◌, ◌==◌, PartialEq, pair_eq, if◌then◌else◌, retain, map, any-append, contains, is_none,
  arith, Bool-cases, Option-cases, ==_refl,
}
use recomp_net_server.Common.Map
use recomp_net_server.Common.Map.{get-insert}
use recomp_net_server.Common.Text.{Text, text_eq, text_beq_iff}
use recomp_net_server.Metrics.{GameLabels, game_label}
use recomp_net_server.Metrics.Totals.{Key}

-- The gauge `recomp_matches_active` at each key, and the keys that were published.
pub record Active : Type 0 where
  pub gauge : List (Key × ℕ)
  pub published : List Key

abbrev pub value_of {ℓ} : {K : Type ℓ} ⦃e : PartialEq K⦄ → K → List (K × ℕ) → ℕ
value_of k m = elim (Map.get k m) [ none ↦ 0 | some n ↦ n ]

-- The raw counts folded onto the labels.
unfoldable pub fold_counts :
    GameLabels → List (Text × ℕ) → List (Text × ℕ) → GameLabels × List (Text × ℕ)
fold_counts g folded [] = (g, folded)
fold_counts g folded ((game, n) ∷ counts) =
    let (g', label) = game_label g g game in
    fold_counts g' (Map.insert label (value_of label folded + n) folded) counts

-- A key of the surface that has no live match any more.
unfoldable pub is_gone : (surface : Text) → (folded : List (Text × ℕ)) → Key → Bool
is_gone surface folded (s, game) = s == surface && is_none (Map.get game folded)

-- The published keys of the surface that have no live match any more are set to 0.
unfoldable pub zero_gone :
    (surface : Text) → (folded : List (Text × ℕ)) → List Key → List (Key × ℕ) → List (Key × ℕ)
zero_gone surface folded [] gauge = gauge
zero_gone surface folded (key ∷ published) gauge =
    zero_gone surface folded published
      (if is_gone surface folded key then Map.insert key 0 gauge else gauge)

-- The live matches are set; the order of the writes does not matter, for a map has a key once.
unfoldable pub set_folded : (surface : Text) → List (Text × ℕ) → List (Key × ℕ) → List (Key × ℕ)
set_folded surface [] gauge = gauge
set_folded surface ((game, n) ∷ folded) gauge =
    Map.insert (surface, game) n (set_folded surface folded gauge)

unfoldable pub set_matches_by_game :
    GameLabels × Active → (surface : Text) → (counts : List (Text × ℕ)) → GameLabels × Active
set_matches_by_game (g, a) surface counts =
    let (g', folded) = fold_counts g [] counts in
    let zeroed = zero_gone surface folded a.published a.gauge in
    (
      g',
      record {
        gauge = set_folded surface folded zeroed;
        published =
            retain (λ k. not (k.0 == surface)) a.published ++ map (λ e. (surface, e.0)) folded;
      },
    )

-- A gauge that is not 0 has its key among the published ones.
unfoldable pub IsTracked : Active → Type 0
IsTracked a = (k : Key) → contains a.published k ≡ false → value_of k a.gauge ≡ 0

value_of-insert :
    (j k : Key) (n : ℕ) (m : List (Key × ℕ))
    → value_of k (Map.insert j n m) ≡ (if j == k then n else value_of k m)
value_of-insert j k n m =
    let at = get-insert j k n m in
    elim (Bool-cases (j == k)) [
      | inl y ↦ rw (value_of, at, y) refl
      | inr n' ↦ rw (value_of, at, n') refl
    ]

zero_gone-value :
    (surface : Text) (folded : List (Text × ℕ)) (published : List Key) (gauge : List (Key × ℕ))
    (k : Key)
    → value_of k (zero_gone surface folded published gauge)
      ≡ (if contains published k && is_gone surface folded k then 0 else value_of k gauge)
unfolding zero_gone
zero_gone-value surface folded [] gauge k = refl
zero_gone-value surface folded (j ∷ published) gauge k =
    let next = if is_gone surface folded j then Map.insert j 0 gauge else gauge in
    let rest = zero_gone-value surface folded published next k in rest ∙ step
  where
    step :
        (if contains published k && is_gone surface folded k
          then 0
          else value_of k (if is_gone surface folded j then Map.insert j 0 gauge else gauge))
        ≡ (if contains (j ∷ published) k && is_gone surface folded k then 0 else value_of k gauge)
    step = elim (Bool-cases (j == k)) [
      | inr apart ↦ (elim (Bool-cases (is_gone surface folded j)) [
        | inr live ↦ rw (live, apart) refl
        | inl gone ↦ rw (gone, value_of-insert j k 0 gauge, apart) refl
      ])
      | inl at ↦
          let (there, _) = PartialEq.equal_iff pair_eq j k in
          let same = there at in
          (elim (Bool-cases (is_gone surface folded k)) [
            | inr live ↦ rw (same, live) (ground arith)
            | inl gone ↦
                rw (same, gone)
                  (ground (arith, ==_refl k.0, ==_refl k.1, value_of-insert k k 0 gauge))
          ])
    ]

abbrev pub or_else : Option ℕ → ℕ → ℕ
or_else none d = d
or_else (some n) d = n

set_folded-value :
    (surface : Text) (folded : List (Text × ℕ)) (gauge : List (Key × ℕ)) (k : Key)
    → value_of k (set_folded surface folded gauge) ≡ (
        if surface == k.0
        then or_else (Map.get k.1 folded) (value_of k gauge)
        else value_of k gauge)
unfolding set_folded Map.get
set_folded-value surface [] gauge k = elim (Bool-cases (surface == k.0)) [
  | inl y ↦ rw y refl
  | inr n ↦ rw n refl
]
set_folded-value surface ((game, n) ∷ folded) gauge k =
    let rest = set_folded-value surface folded gauge k in
    let step = value_of-insert (surface, game) k n (set_folded surface folded gauge) in
    step ∙ (elim (Bool-cases (surface == k.0)) [
      | inr other ↦ rw (other, rest, other) refl
      | inl here ↦ (elim (Bool-cases (game == k.1)) [
        | inl at ↦ rw (here, at) refl
        | inr past ↦ rw (here, past, rest, here) refl
      ])
    ])

-- When every gauge that is not 0 has its key among the published ones: after the live matches of a surface
-- are published, the gauge of each label of that surface is the folded count of its games, 0 for a label
-- without a live match, whatever it showed before; the gauges of the other surfaces are as they were.
pub set_matches_by_game-gauges :
    (g : GameLabels) (a : Active) (surface : Text) (counts : List (Text × ℕ)) (k : Key)
    → IsTracked a
    → value_of k (set_matches_by_game (g, a) surface counts).1.gauge
      ≡ (if surface == k.0 then value_of k.1 (fold_counts g [] counts).1 else value_of k a.gauge)
unfolding set_matches_by_game IsTracked is_gone
set_matches_by_game-gauges g a surface counts k tracked =
    let folded = (fold_counts g [] counts).1 in
    let zeroed = zero_gone-value surface folded a.published a.gauge k in
    set_folded-value surface folded (zero_gone surface folded a.published a.gauge) k
    ∙ (elim (Bool-cases (surface == k.0)) [
      | inr other ↦
          let stays : is_gone surface folded k ≡ false =
            ground (arith, text_beq_iff surface k.0, text_beq_iff k.0 surface) in
          rw (other, zeroed, stays) (ground arith)
      | inl here ↦ (elim (Option-cases (Map.get k.1 folded)) [
        | inr (n, live) ↦
            let full : value_of k.1 (fold_counts g [] counts).1 ≡ n = rw (value_of, live) refl in
            rw (here, live) (sym full)
        | inl gone ↦
            let goes : is_gone surface folded k ≡ true =
              ground (arith, text_beq_iff surface k.0, text_beq_iff k.0 surface, gone) in
            let empty : value_of k.1 (fold_counts g [] counts).1 ≡ 0 = rw (value_of, gone) refl in
            (elim (Bool-cases (contains a.published k)) [
              | inl was ↦ rw (here, gone, zeroed, was, goes) (sym empty)
              | inr never ↦ rw (here, gone, zeroed, never) (tracked k never ∙ sym empty)
            ])
      ])
    ])

contains-retain :
    (surface : Text) (ks : List Key) (k : Key)
    → (surface == k.0) ≡ false
    → contains (retain (λ j. not (j.0 == surface)) ks) k ≡ contains ks k
contains-retain surface [] k h = refl
contains-retain surface (j ∷ ks) k h =
    let rest = contains-retain surface ks k h in
    (elim (Bool-cases (j.0 == surface)) [
      | inl gone ↦
          let apart : (j == k) ≡ false =
            ground
              (arith, text_beq_iff j.0 surface, text_beq_iff surface k.0, text_beq_iff j.0 k.0) in
          rw (gone, rest, apart) refl
      | inr kept ↦ rw (kept, rest) refl
    ])

get-absent :
    (surface : Text) (folded : List (Text × ℕ)) (k : Key)
    → (surface == k.0) ≡ true
    → contains (map (λ e. (surface, e.0)) folded) k ≡ false
    → Map.get k.1 folded ≡ none
unfolding Map.get
get-absent surface [] k h c = refl
get-absent surface ((game, n) ∷ folded) k h c =
    let apart : (game == k.1) ≡ false = ground arith in
    rw apart (get-absent surface folded k h (ground arith))

-- Publishing keeps every gauge that is not 0 among the published keys.
pub set_matches_by_game-IsTracked :
    (g : GameLabels) (a : Active) (surface : Text) (counts : List (Text × ℕ))
    → IsTracked a
    → IsTracked (set_matches_by_game (g, a) surface counts).1
unfolding IsTracked set_matches_by_game
set_matches_by_game-IsTracked g a surface counts tracked k out =
    let folded = (fold_counts g [] counts).1 in
    let value = set_matches_by_game-gauges g a surface counts k tracked in
    let kept = retain (λ j. not (j.0 == surface)) a.published in
    let split = any-append (λ j. j == k) kept (map (λ e. (surface, e.0)) folded) in
    let none_kept : contains kept k ≡ false = ground arith in
    let none_live : contains (map (λ e. (surface, e.0)) folded) k ≡ false = ground arith in
    value ∙ (elim (Bool-cases (surface == k.0)) [
      | inl here ↦
          let gone = get-absent surface folded k here none_live in
          let empty : value_of k.1 (fold_counts g [] counts).1 ≡ 0 = rw (value_of, gone) refl in
          rw here empty
      | inr other ↦
          let was = contains-retain surface a.published k other in
          rw other (tracked k (ground arith))
    ])
