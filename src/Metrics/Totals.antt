-- ===== src/Metrics/Totals.antt =====
-- The lifetime match totals of src/metrics.rs.
use recomp_net_server.Common.{
  ℕ, ◌+◌, ◌%◌, ◌^◌, ◌≡◌, inl, inr, refl, ◌∙◌, arith, none, some, List, [], ◌∷◌, ◌==◌, PartialEq,
  pair_eq, if◌then◌else◌, retain, map, Bool-cases,
}
use recomp_net_server.Common.Map
use recomp_net_server.Common.Map.{get-insert}
use recomp_net_server.Common.Text.{Text, text_eq}
use recomp_net_server.Metrics.{GameLabels, game_label}

pub record MatchTotals : Type 0 where
  pub starts : ℕ
  pub players : ℕ

abbrev pub no_matches : MatchTotals
no_matches = record { starts = 0; players = 0 }

abbrev pub Key : Type 0
Key = Text × Text

abbrev pub Starts : Type 0
Starts = List (Key × MatchTotals)

abbrev pub totals_of : Key → Starts → MatchTotals
totals_of k m = elim (Map.get k m) [ none ↦ no_matches | some t ↦ t ]

abbrev one_more : (players : ℕ) → MatchTotals → MatchTotals
one_more players t = record {
  starts = (t.starts + 1) % 2 ^ 64;
  players = (t.players + players) % 2 ^ 64;
}

-- `entry((surface, label)).or_default()`, then the two additions of `u64`.
unfoldable pub count_start : Key → (players : ℕ) → Starts → Starts
count_start k players m = let entry = totals_of k m in Map.insert k (one_more players entry) m

-- The labels and the totals, and the label that the start counts under.
unfoldable pub match_started :
    GameLabels × Starts → (surface game : Text) → (players : ℕ) → (GameLabels × Starts) × Text
match_started (g, m) surface game players =
    let (g', label) = game_label g g game in ((g', count_start (surface, label) players m), label)

unfoldable pub match_starts_by_game : Text → Starts → List (Text × MatchTotals)
match_starts_by_game surface m = map (λ e. (e.0.1, e.1)) (retain (λ e. e.0.0 == surface) m)

-- Starts one after the other: surface, game and players of each.
unfoldable pub start_all : GameLabels × Starts → List (Text × Text × ℕ) → GameLabels × Starts
start_all s [] = s
start_all s ((surface, game, players) ∷ calls) =
    start_all (match_started s surface game players).0 calls

-- The key of each start, by `game_label` alone, and its players.
unfoldable pub keys_of : GameLabels → List (Text × Text × ℕ) → List (Key × ℕ)
keys_of g [] = []
keys_of g ((surface, game, players) ∷ calls) =
    let (g', label) = game_label g g game in ((surface, label), players) ∷ keys_of g' calls

-- How many starts there are under a key, and how many players they have.
unfoldable pub starts_under : Key → List (Key × ℕ) → ℕ
starts_under k [] = 0
starts_under k ((j, players) ∷ keys) = (if j == k then 1 else 0) + starts_under k keys

unfoldable pub players_under : Key → List (Key × ℕ) → ℕ
players_under k [] = 0
players_under k ((j, players) ∷ keys) = (if j == k then players else 0) + players_under k keys

count_start-totals :
    (j k : Key) (players : ℕ) (m : Starts)
    → totals_of k (count_start j players m)
      ≡ (if j == k then one_more players (totals_of k m) else totals_of k m)
unfolding count_start
count_start-totals j k players m =
    let at = get-insert j k (one_more players (totals_of j m)) m in
    elim (Bool-cases (j == k)) [
      | inl y ↦
          let (there, _) = PartialEq.equal_iff pair_eq j k in
          let same = there y in rw (totals_of, at, y, same) refl
      | inr n ↦ rw (totals_of, at, n) refl
    ]

-- What a table with the sums `a` and `b` under a key holds there.
unfoldable pub Holds : Key → Starts → (a b : ℕ) → Type 0
Holds k m a b = ((totals_of k m).starts ≡ a % 2 ^ 64) × ((totals_of k m).players ≡ b % 2 ^ 64)

Holds-count_start :
    (j k : Key) (players : ℕ) (m : Starts) (a b : ℕ)
    → Holds k m a b
    → Holds k
        (count_start j players m)
        (a + (if j == k then 1 else 0))
        (b + (if j == k then players else 0))
unfolding Holds
Holds-count_start j k players m a b (ha, hb) = elim (Bool-cases (j == k)) [
  | inl y ↦
      let own : totals_of k (count_start j players m) ≡ one_more players (totals_of k m) =
        count_start-totals j k players m ∙ rw y refl in
      rw (own, y) (omega (arith, ha), omega (arith, hb))
  | inr n ↦
      let own : totals_of k (count_start j players m) ≡ totals_of k m =
        count_start-totals j k players m ∙ rw n refl in
      rw (own, n) (omega (arith, ha), omega (arith, hb))
]

Holds-start_all :
    (g : GameLabels) (m : Starts) (calls : List (Text × Text × ℕ)) (k : Key) (a b : ℕ)
    → Holds k m a b
    → Holds k
        (start_all (g, m) calls).1
        (a + starts_under k (keys_of g calls))
        (b + players_under k (keys_of g calls))
unfolding start_all match_started keys_of starts_under players_under Holds
Holds-start_all g m [] k a b (ha, hb) = (omega (arith, ha), omega (arith, hb))
Holds-start_all g m ((surface, game, players) ∷ calls) k a b h =
    let (g', label) = game_label g g game in
    let (starts, sum) =
      Holds-start_all g' (count_start (surface, label) players m) calls k _ _
        (Holds-count_start (surface, label) k players m a b h) in
    (omega (arith, starts), omega (arith, sum))

empty-Holds : (k : Key) → Holds k [] 0 0
unfolding Holds Map.get
empty-Holds k = (omega arith, omega arith)

-- On an empty table, after any starts: the starts under each surface and label are as many as the calls
-- whose game `game_label` gave that label on that surface, and the players are the sum of the
-- players of those calls, both modulo 2^64.
pub start_all-counts :
    (g : GameLabels) (calls : List (Text × Text × ℕ)) (k : Key)
    → let t = totals_of k (start_all (g, []) calls).1 in
      (t.starts ≡ starts_under k (keys_of g calls) % 2 ^ 64)
      × (t.players ≡ players_under k (keys_of g calls) % 2 ^ 64)
unfolding Holds
start_all-counts g calls k =
    let (starts, sum) = Holds-start_all g [] calls k 0 0 (empty-Holds k) in
    (omega (arith, starts), omega (arith, sum))
