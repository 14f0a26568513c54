-- ===== src/Metrics/Live.antt =====
-- The gauges of live matches against the matches of the games under each label (src/metrics.rs).
use recomp_net_server.Common.{
  ℕ, ◌+◌, ◌≡◌, inl, inr, refl, ap, ◌∙◌, List, [], ◌∷◌, ◌==◌, pair_eq, if◌then◌else◌, arith,
  Bool-cases,
}
use recomp_net_server.Common.Map
use recomp_net_server.Common.Map.{get-insert}
use recomp_net_server.Common.Text.{Text, text_eq, text_beq_iff}
use recomp_net_server.Metrics.{GameLabels, game_label}
use recomp_net_server.Metrics.Totals.{Key}
use recomp_net_server.Metrics.Gauges.{
  Active, value_of, fold_counts, set_matches_by_game, IsTracked, set_matches_by_game-gauges,
}

-- The label of each game, by `game_label` alone, and its live matches.
unfoldable pub labelled : GameLabels → List (Text × ℕ) → List (Text × ℕ)
labelled g [] = []
labelled g ((game, n) ∷ counts) =
    let (g', label) = game_label g g game in (label, n) ∷ labelled g' counts

-- The live matches under a label, all together.
unfoldable pub live_under : Text → List (Text × ℕ) → ℕ
live_under label [] = 0
live_under label ((l, n) ∷ ls) = (if l == label then n else 0) + live_under label ls

value_of-add :
    (l label : Text) (n : ℕ) (folded : List (Text × ℕ))
    → value_of label (Map.insert l (value_of l folded + n) folded)
      ≡ value_of label folded + (if l == label then n else 0)
value_of-add l label n folded =
    let at = get-insert l label (value_of l folded + n) folded in
    elim (Bool-cases (l == label)) [
      | inr apart ↦ rw (value_of, at, apart) (omega arith)
      | inl same ↦
          let eq : l ≡ label = (text_beq_iff l label).0 same in
          let own : value_of l folded ≡ value_of label folded = ap (λ k. value_of k folded) eq in
          let got : value_of label (Map.insert l (value_of l folded + n) folded)
              ≡ value_of l folded + n =
            rw (value_of, at, same) refl in
          got ∙ rw (own, same) refl
    ]

fold_counts-live :
    (g : GameLabels) (folded counts : List (Text × ℕ)) (label : Text)
    → value_of label (fold_counts g folded counts).1
      ≡ value_of label folded + live_under label (labelled g counts)
unfolding fold_counts labelled live_under
fold_counts-live g folded [] label = omega arith
fold_counts-live g folded ((game, n) ∷ counts) label =
    let (g', l) = game_label g g game in
    omega (
      arith,
      fold_counts-live g' (Map.insert l (value_of l folded + n) folded) counts label,
      value_of-add l label n folded,
    )

nothing_yet : (label : Text) → value_of label [] ≡ 0
unfolding Map.get
nothing_yet label = refl

-- When every gauge that is not 0 has its key among the published ones: after the live matches of a surface
-- are published, the gauge of each label of that surface is the sum of the live matches of the games that
-- `game_label` gives that label, so 0 for a label without one, whatever it showed before; the gauges of
-- the other surfaces are as they were.
pub set_matches_by_game-live :
    (g : GameLabels) (a : Active) (surface : Text) (counts : List (Text × ℕ)) (k : Key)
    → IsTracked a
    → value_of k (set_matches_by_game (g, a) surface counts).1.gauge
      ≡ (if surface == k.0 then live_under k.1 (labelled g counts) else value_of k a.gauge)
set_matches_by_game-live g a surface counts k tracked =
    let sum : value_of k.1 (fold_counts g [] counts).1 ≡ live_under k.1 (labelled g counts) =
      omega (arith, fold_counts-live g [] counts k.1, nothing_yet k.1) in
    set_matches_by_game-gauges g a surface counts k tracked
    ∙ ap (λ n. if surface == k.0 then n else value_of k a.gauge) sum
