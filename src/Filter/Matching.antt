-- ===== src/Filter/Matching.antt =====
-- The word list and the masking of a line (src/chat_filter.rs).
use recomp_net_server.Common.{
  ℕ, zero, suc, ◌+◌, ◌-◌, Option, none, some, List, [], ◌∷◌, ◌++◌, map, Bool, true, false, not,
  ◌&&◌, ◌||◌, ltb, leb, ◌==◌, nat_eq, if◌then◌else◌, length, get_or, retain,
}
use recomp_net_server.Common.Text.{Text, is_empty}
use recomp_net_server.Filter.Folding.{fold, is_letter, is_separator}

pub record Word : Type 0 where
  pub cp : Text
  pub anywhere : Bool

pub record ChatFilter : Type 0 where
  pub words : List Word
  pub enabled : Bool

-- The text before the first line break and, behind it, the rest; `none` when there is no break.
unfoldable pub split_line : Text → Text × Option Text
split_line [] = ([], none)
split_line (c ∷ s) =
    if c == b'\n' then ([], some s) else let (line, rest) = split_line s in (c ∷ line, rest)

-- `list.lines()`: an empty last line is none. There are at most as many lines as characters.
unfoldable pub lines : (fuel : ℕ) → Text → List Text
lines zero s = []
lines (suc n) [] = []
lines (suc n) (c ∷ s) =
    let (line, rest) = split_line (c ∷ s) in line ∷ elim rest [ none ↦ [] | some s' ↦ lines n s' ]

-- `trim_end_matches('\r')`
unfoldable pub trim_returns : Text → Text
trim_returns [] = []
trim_returns (c ∷ s) =
    let rest = trim_returns s in if is_empty rest && c == b'\r' then [] else c ∷ rest

abbrev pub starts_with : ℕ → Text → Bool
starts_with a [] = false
starts_with a (c ∷ s) = c == a

abbrev pub tail : Text → Text
tail [] = []
tail (c ∷ s) = s

-- One line of the list: a comment, nothing, or a word.
unfoldable pub parse_line : Text → Option Word
parse_line raw =
    let line = trim_returns raw in
    let anywhere = starts_with b'~' line in
    let body = if anywhere then tail line else line in
    let cp = map fold (retain (λ c. not (c == b' ')) body) in
    if is_empty line || starts_with b'#' line || is_empty cp
    then none
    else some (record { cp = cp; anywhere = anywhere })

unfoldable pub parse_lines : List Text → List Word
parse_lines [] = []
parse_lines (line ∷ rest) = elim (parse_line line) [
  | none ↦ parse_lines rest
  | some w ↦ w ∷ parse_lines rest
]

unfoldable pub parse : Text → (enabled : Bool) → ChatFilter
parse list enabled = record { words = parse_lines (lines (length list) list); enabled = enabled }

-- `while p < n && test(t[p]) { p += 1 }`, which takes at most `n` rounds.
unfoldable pub skip_while : (ℕ → Bool) → Text → (fuel p : ℕ) → ℕ
skip_while test t zero p = p
skip_while test t (suc fuel) p =
    let rest = skip_while test t fuel (p + 1) in
    if ltb p (length t) && test (get_or t p 0) then rest else p

abbrev pub skip : (ℕ → Bool) → Text → ℕ → ℕ
skip test t p = skip_while test t (length t) p

-- The loop over the letters of a word. `later` is false at the first letter (`j > 0` in the source).
unfoldable pub match_letters : (t : Text) (allow_sep later : Bool) → Text → ℕ → Option ℕ
match_letters t allow_sep later [] p = some p
match_letters t allow_sep later (want ∷ cp) p =
    let q = if later && allow_sep then skip is_separator t p else p in
    let after = if starts_with want cp then q + 1 else skip (λ c. c == want) t (q + 1) in
    let rest = match_letters t allow_sep true cp after in
    if leb (length t) q || not (get_or t q 0 == want) then none else rest

-- The end of a match, or 0.
unfoldable pub match_at : (t orig : Text) → ℕ → Word → ℕ
match_at t orig at w =
    if not w.anywhere && ltb 0 at && is_letter (get_or orig (at - 1) 0)
    then 0
    else elim (match_letters t (leb 4 (length w.cp)) false w.cp at) [
      | none ↦ 0
      | some p ↦ if not w.anywhere && ltb p (length t) && is_letter (get_or orig p 0) then 0 else p
    ]

-- The longest match of the words that begin with the letter at `i`.
unfoldable pub best_end : (folded orig : Text) → ℕ → List Word → ℕ → ℕ
best_end folded orig i [] best = best
best_end folded orig i (w ∷ words) best =
    let end = match_at folded orig i w in
    let better = if ltb best end then end else best in
    best_end folded orig i words (if get_or w.cp 0 0 == get_or folded i 0 then better else best)

-- `for c in orig.iter_mut().take(to).skip(from) { *c = '*' }`
unfoldable pub star : Text → (from to : ℕ) → Text
star [] from to = []
star (c ∷ s) from zero = c ∷ s
star (c ∷ s) zero (suc to) = b'*' ∷ star s zero to
star (c ∷ s) (suc from) (suc to) = c ∷ star s from to

-- The position behind the match at `i`, or the next one.
unfoldable pub next_position : ChatFilter → (folded orig : Text) → ℕ → ℕ × Bool
next_position f folded orig i =
    let best = best_end folded orig i f.words 0 in
    if not (is_letter (get_or folded i 0))
    then (i + 1, false)
    else if ltb 0 best
    then (best, true)
    else (i + 1, false)

-- The loop of `mask`: the masked text and the number of hits. Every round moves on, so there are at most
-- as many as characters.
unfoldable pub mask_loop :
    ChatFilter → (folded : Text) → (fuel : ℕ) → Text → (hits i : ℕ) → Text × ℕ
mask_loop f folded zero orig hits i = (orig, hits)
mask_loop f folded (suc fuel) orig hits i =
    let (next, hit) = next_position f folded orig i in
    let masked = if hit then star orig i next else orig in
    let rest = mask_loop f folded fuel masked (if hit then suc hits else hits) next in
    if ltb i (length orig) then rest else (orig, hits)

unfoldable pub mask : ChatFilter → Text → Text
mask f text =
    let (masked, hits) = mask_loop f (map fold text) (length text) text 0 0 in
    if not f.enabled || is_empty f.words then text else if hits == 0 then text else masked

-- `init` and `apply`: the built-in list, then the operator's extra list on a line of its own.
unfoldable pub init : (builtin : Text) → (enabled : Bool) → Option Text → ChatFilter
init builtin enabled none = parse builtin enabled
init builtin enabled (some extra) = parse (builtin ++ (b'\n' ∷ extra)) enabled
