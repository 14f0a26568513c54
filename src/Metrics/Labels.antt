-- ===== src/Metrics/Labels.antt =====
-- The label that a game's name becomes (src/metrics.rs).
use recomp_net_server.Common.{
  ℕ, suc, ◌+◌, ◌≤◌, ◌≡◌, inl, inr, refl, ap, [], ◌∷◌, Bool, true, false, ◌&&◌, leb, ◌==◌, nat_eq,
  length, arith, Bool-cases,
}
use recomp_net_server.Common.Text.{Text, is_whitespace, trim, trim_start, trim_end, is_empty}
use recomp_net_server.Metrics.{label_char, is_edge, collapse, pop_edges, normalize_game}

label_char_twice : (c : ℕ) → label_char (label_char c) ≡ label_char c
unfolding label_char
label_char_twice c = ground arith

-- Every character is one that labels have, and `_` does not stand first, where blocked, or twice in a row.
unfoldable pub Steady : Bool → Text → Type 0
Steady blocked [] = Unit
Steady blocked (c ∷ s) =
    (label_char c ≡ c) × ((c == b'_' && blocked) ≡ false) × Steady (c == b'_') s

Steady-unblock : (blocked : Bool) (s : Text) → Steady blocked s → Steady false s
unfolding Steady
Steady-unblock blocked [] h = tt
Steady-unblock blocked (c ∷ s) (a, b, h) = (a, ground arith, h)

collapse-Steady :
    (used : ℕ) (blocked : Bool) (s : Text)
    → used ≤ 48
    → Steady blocked (collapse used blocked s) × (length (collapse used blocked s) + used ≤ 48)
unfolding collapse Steady
collapse-Steady used blocked [] h = (tt, omega arith)
collapse-Steady used blocked (ch ∷ s) h = elim (Bool-cases (leb 48 used)) [
  | inl full ↦ rw full (tt, omega arith)
  | inr room ↦ (elim (Bool-cases (label_char ch == b'_' && blocked)) [
    | inl skip ↦
        let on : blocked ≡ true = ground arith in rw (room, skip) (collapse-Steady used blocked s h)
    | inr push ↦
        let (steady, le) = collapse-Steady (suc used) (label_char ch == b'_') s (ground arith) in
        rw (room, push) ((label_char_twice ch, push, steady), omega (arith, le))
  ])
]

pop_edges-Steady :
    (blocked : Bool) (s : Text)
    → Steady blocked s
    → Steady blocked (pop_edges s) × (length (pop_edges s) ≤ length s)
unfolding pop_edges Steady
pop_edges-Steady blocked [] h = (tt, omega arith)
pop_edges-Steady blocked (c ∷ s) (a, b, h) =
    let (steady, le) = pop_edges-Steady (c == b'_') s h in
    (elim (Bool-cases (is_empty (pop_edges s) && is_edge c)) [
      | inl gone ↦ rw gone (tt, omega arith)
      | inr kept ↦ rw kept ((a, b, steady), omega arith)
    ])

pop_edges-pop_edges : (s : Text) → pop_edges (pop_edges s) ≡ pop_edges s
unfolding pop_edges
pop_edges-pop_edges [] = refl
pop_edges-pop_edges (c ∷ s) =
    let rest = pop_edges-pop_edges s in
    (elim (Bool-cases (is_empty (pop_edges s) && is_edge c)) [
      | inl gone ↦ rw gone refl
      | inr kept ↦ rw (kept, rest, kept) refl
    ])

-- A label: at most 48 characters, each a lower-case letter, a digit, `.`, `-` or `_`; no `_` at the front
-- or behind another, and none of the three separators at the end.
unfoldable pub IsLabel : Text → Type 0
IsLabel s = (length s ≤ 48) × Steady true s × (pop_edges s ≡ s)

-- Whatever name a client sends, it becomes a label (which may be empty).
pub normalize_game-IsLabel : (raw : Text) → IsLabel (normalize_game raw)
unfolding IsLabel normalize_game
normalize_game-IsLabel raw =
    let (steady, le) = collapse-Steady 0 true (trim raw) (omega arith) in
    let (steady', le') = pop_edges-Steady true (collapse 0 true (trim raw)) steady in
    (omega arith, steady', pop_edges-pop_edges (collapse 0 true (trim raw)))

label_char-visible : (c : ℕ) → label_char c ≡ c → is_whitespace c ≡ false
unfolding label_char is_whitespace
label_char-visible c h = ground arith

trim_start-Steady : (blocked : Bool) (s : Text) → Steady blocked s → trim_start s ≡ s
unfolding Steady
trim_start-Steady blocked [] h = refl
trim_start-Steady blocked (c ∷ s) (a, _, _) = rw (label_char-visible c a) refl

trim_end-Steady : (blocked : Bool) (s : Text) → Steady blocked s → trim_end s ≡ s
unfolding Steady
trim_end-Steady blocked [] h = refl
trim_end-Steady blocked (c ∷ s) (a, _, h) =
    let rest = trim_end-Steady (c == b'_') s h in
    let seen : (is_empty s && is_whitespace c) ≡ false = ground (arith, label_char-visible c a) in
    rw (rest, seen) refl

collapse-fixed :
    (used : ℕ) (blocked : Bool) (s : Text)
    → used + length s ≤ 48
    → Steady blocked s
    → collapse used blocked s ≡ s
unfolding collapse Steady
collapse-fixed used blocked [] h k = refl
collapse-fixed used blocked (c ∷ s) h (a, b, k) =
    let room : leb 48 used ≡ false = ground arith in
    let rest = collapse-fixed (suc used) (c == b'_') s (omega arith) k in
    rw (room, a, b) (ap (λ t. c ∷ t) rest)

label_fixed : (s : Text) → IsLabel s → normalize_game s ≡ s
unfolding IsLabel normalize_game trim
label_fixed s (le, steady, edges) =
    rw
      (
        trim_start-Steady true s steady,
        trim_end-Steady true s steady,
        collapse-fixed 0 true s (omega arith) steady,
      )
      edges

-- A label stands for itself, so normalising a name twice is normalising it once.
pub normalize_game-idempotent :
    (raw : Text) → normalize_game (normalize_game raw) ≡ normalize_game raw
normalize_game-idempotent raw = label_fixed (normalize_game raw) (normalize_game-IsLabel raw)
