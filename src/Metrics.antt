-- ===== src/Metrics.antt =====
-- src/metrics.rs: the bounded set of `game` labels, the lifetime match totals and the gauges of live
-- matches. The process-wide tables are a state that each function takes and gives.
pub mod Labels
pub mod Bounded
pub mod Runs
pub mod Totals
pub mod Gauges
pub mod Live
pub mod Examples
use recomp_net_server.Common.{
  ℕ, zero, suc, ◌+◌, max, ◌≡◌, Option, none, some, List, [], ◌∷◌, ◌++◌, Bool, true, false, not,
  ◌&&◌, ◌||◌, ltb, leb, PartialEq, ◌==◌, nat_eq, if◌then◌else◌, length, is_none, is_some,
}
use recomp_net_server.Common.Map
use recomp_net_server.Common.Text.{Text, text_eq, trim, is_empty, within, lower, chars}

abbrev pub game_label_max_len : ℕ
game_label_max_len = 48

unfoldable pub game_label_other : Text
game_label_other = chars "other"

unfoldable pub game_label_unknown : Text
game_label_unknown = chars "unknown"

abbrev pub is_ascii_alphanumeric : ℕ → Bool
is_ascii_alphanumeric c = within b'0' b'9' c || within b'A' b'Z' c || within b'a' b'z' c

-- The character of a label that a character of a name becomes.
unfoldable pub label_char : ℕ → ℕ
label_char ch =
    if is_ascii_alphanumeric ch
    then lower ch
    else if ch == b'.' || ch == b'-' || ch == b'_'
    then ch
    else b'_'

-- The loop over the characters; `blocked` is `prev_sep || out.is_empty()` and `used` is `out.len()`.
unfoldable pub collapse : (used : ℕ) (blocked : Bool) → Text → Text
collapse used blocked [] = []
collapse used blocked (ch ∷ s) =
    let c = label_char ch in
    let sep = c == b'_' in
    let skipped = collapse used blocked s in
    let pushed = collapse (suc used) sep s in
    if leb game_label_max_len used then [] else if sep && blocked then skipped else c ∷ pushed

abbrev pub is_edge : ℕ → Bool
is_edge c = c == b'_' || c == b'-' || c == b'.'

-- `while out.ends_with(..) { out.pop(); }`
unfoldable pub pop_edges : Text → Text
pop_edges [] = []
pop_edges (c ∷ s) = let rest = pop_edges s in if is_empty rest && is_edge c then [] else c ∷ rest

unfoldable pub normalize_game : Text → Text
normalize_game raw = pop_edges (collapse 0 true (trim raw))

pub record GameLabels : Type 0 where
  pub strict : Bool
  pub limit : ℕ
  pub known : List (Text × Text)

-- One name of the allowlist.
unfoldable pub seed : List (Text × Text) → Text → List (Text × Text)
seed known raw =
    let name = normalize_game raw in
    if is_empty name || is_some (Map.get name known) then known else Map.insert name name known

unfoldable pub seed_all : List (Text × Text) → List Text → List (Text × Text)
seed_all known [] = known
seed_all known (raw ∷ allowlist) = seed_all (seed known raw) allowlist

unfoldable pub init_game_labels : List Text → (limit : ℕ) → GameLabels
init_game_labels allowlist limit = record {
  strict = not (is_empty allowlist);
  limit = max limit 1;
  known = seed_all [] allowlist;
}

-- The lookup under the read lock and, when another thread came first, again under the write lock.
unfoldable pub look_up : GameLabels → Text → Option Text
look_up g name = elim (Map.get name g.known) [
  | some label ↦ some label
  | none ↦ if g.strict || leb g.limit (length g.known) then some game_label_other else none
]

-- `g` is the table at the read, `g'` the table at the write; they differ when another thread wrote
-- between the two locks.
unfoldable pub game_label : (g g' : GameLabels) → Text → GameLabels × Text
game_label g g' raw =
    let name = normalize_game raw in
    let learned = record g' { known = Map.insert name name g'.known } in
    if is_empty name then (g', game_label_unknown) else elim (look_up g name) [
      | some label ↦ (g', label)
      | none ↦ elim (look_up g' name) [ some label ↦ (g', label) | none ↦ (learned, name) ]
    ]
