-- ===== src/Metrics/Examples.antt =====
-- The names of the tests of src/metrics.rs, and the theorems on it at concrete tables.
use recomp_net_server.Common.{
  ℕ, ◌%◌, ◌^◌, max, ◌≤◌, ◌≡◌, refl, List, [], ◌∷◌, false, length, All, arith, if◌then◌else◌, ◌==◌,
  pair_eq,
}
use recomp_net_server.Common.Map
use recomp_net_server.Common.Text.{Text, text_eq, chars, is_whitespace, trim}
use recomp_net_server.Metrics.{
  GameLabels, label_char, collapse, pop_edges, normalize_game, seed, seed_all, init_game_labels,
  look_up, game_label, game_label_other, game_label_unknown,
}
use recomp_net_server.Metrics.Bounded.{IsGiven}
use recomp_net_server.Metrics.Runs.{seen, label_all, label_all-bounded}
use recomp_net_server.Metrics.Totals.{
  totals_of, count_start, match_started, start_all, keys_of, starts_under, players_under,
  start_all-counts,
}
use recomp_net_server.Metrics.Gauges.{
  Active, value_of, fold_counts, is_gone, zero_gone, set_folded, set_matches_by_game, IsTracked,
}
use recomp_net_server.Metrics.Live.{labelled, live_under, set_matches_by_game-live}

program : Unit {0}
unfolding label_char collapse pop_edges normalize_game is_whitespace trim seed seed_all
    init_game_labels look_up game_label game_label_other game_label_unknown Map.get Map.insert seen
    label_all count_start match_started start_all keys_of starts_under players_under fold_counts
    is_gone zero_gone set_folded set_matches_by_game
program = tt

spaced :
    normalize_game (chars "  Street Fighter III: 3rd Strike! ")
    ≡ chars "street_fighter_iii_3rd_strike"
unfolding program
spaced = refl

marks : normalize_game (chars "!!!") ≡ []
unfolding program
marks = refl

abbrev learning : GameLabels
learning = record { strict = false; limit = 2; known = [] }

abbrev names : List (ℕ × Text)
names = (0, chars "A") ∷ (1, chars "B") ∷ (0, chars "C") ∷ (0, chars "a") ∷ (0, chars "?") ∷ []

folds_past_limit :
    (label_all (init_game_labels [] 2) [] names).1
    ≡ chars "a" ∷ chars "b" ∷ chars "other" ∷ chars "a" ∷ chars "unknown" ∷ []
unfolding program
folds_past_limit = refl

abbrev ws : Text
ws = chars "ws"

abbrev published : Active
published = record {
  gauge = ((ws, chars "a"), 3) ∷ ((chars "http", chars "a"), 1) ∷ [];
  published = (ws, chars "a") ∷ (chars "http", chars "a") ∷ [];
}

published-IsTracked : IsTracked published
unfolding IsTracked Map.get
published-IsTracked k h = ground arith

zeroed :
    value_of
      (ws, chars "a")
      (set_matches_by_game (learning, published) ws ((chars "B", 2) ∷ [])).1.gauge
    ≡ 0
unfolding program
zeroed = refl

label_all-bounded_example :
    (length (label_all (init_game_labels [] 2) [] names).0.known ≤ max (max 2 1) 0)
    × All
        (IsGiven (label_all (init_game_labels [] 2) [] names).0)
        (label_all (init_game_labels [] 2) [] names).1
label_all-bounded_example = label_all-bounded [] 2 names

start_all-counts_example :
    let calls : List (Text × Text × ℕ) = (ws, chars "A", 2) ∷ (ws, chars "B", 2) ∷ [] in
    let t = totals_of (ws, chars "a") (start_all (learning, []) calls).1 in
    (t.starts ≡ starts_under (ws, chars "a") (keys_of learning calls) % 2 ^ 64)
    × (t.players ≡ players_under (ws, chars "a") (keys_of learning calls) % 2 ^ 64)
start_all-counts_example =
    start_all-counts learning ((ws, chars "A", 2) ∷ (ws, chars "B", 2) ∷ []) (ws, chars "a")

set_matches_by_game-live_example :
    value_of
      (ws, chars "a")
      (set_matches_by_game (learning, published) ws ((chars "B", 2) ∷ [])).1.gauge
    ≡ (if ws == ws
        then live_under (chars "a") (labelled learning ((chars "B", 2) ∷ []))
        else value_of (ws, chars "a") published.gauge)
set_matches_by_game-live_example =
    set_matches_by_game-live learning published ws ((chars "B", 2) ∷ []) (ws, chars "a")
      published-IsTracked
