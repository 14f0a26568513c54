-- ===== src/Filter/Ending.antt =====
-- The filter's loop ends, whatever the list and the line (src/chat_filter.rs).
use recomp_net_server.Common.{
  ℕ, zero, suc, ◌+◌, ◌≤◌, ◌<◌, ◌≡◌, inl, inr, refl, sym, ◌∙◌, subst, some, List, [], ◌∷◌, map,
  length-map, Bool, true, false, ltb, nat_eq, if◌then◌else◌, length, arith, Bool-cases,
  Option-cases,
}
use recomp_net_server.Common.Text.{Text, is_empty}
use recomp_net_server.Filter.{
  fold, Word, ChatFilter, mask_loop, parse_line, parse_lines, parse, lines,
}
use recomp_net_server.Filter.Bounds.{Full}
use recomp_net_server.Filter.Masking.{next, hit, masked, length-masked, next-gt}

module _ (f : ChatFilter) (folded : Text) where
  pub mask_loop-stopped :
      (fuel : ℕ) (orig : Text) (hits i : ℕ)
      → length orig ≤ i
      → mask_loop f folded fuel orig hits i ≡ (orig, hits)
  unfolding mask_loop
  mask_loop-stopped zero orig hits i h = refl
  mask_loop-stopped (suc fuel) orig hits i h =
      let stop : ltb i (length orig) ≡ false = ground arith in rw stop refl

  -- One round of the loop.
  pub mask_loop-round :
      (fuel : ℕ) (orig : Text) (hits i : ℕ)
      → i < length orig
      → mask_loop f folded (suc fuel) orig hits i
        ≡ mask_loop f folded fuel
            (masked f folded orig i)
            (if hit f folded orig i then suc hits else hits)
            (next f folded orig i)
  unfolding mask_loop
  mask_loop-round fuel orig hits i h =
      let go : ltb i (length orig) ≡ true = ground arith in rw go refl

  -- More fuel than there are positions left changes nothing.
  pub mask_loop-fuel :
      (more fuel : ℕ) (orig : Text) (hits i : ℕ)
      → Full f.words
      → length folded ≡ length orig
      → length orig ≤ i + fuel
      → mask_loop f folded (fuel + more) orig hits i ≡ mask_loop f folded fuel orig hits i
  mask_loop-fuel more zero orig hits i full same h =
      mask_loop-stopped (zero + more) orig hits i (omega arith)
      ∙ sym (mask_loop-stopped zero orig hits i (omega arith))
  mask_loop-fuel more (suc fuel) orig hits i full same h = elim (Bool-cases (ltb i (length orig))) [
    | inr stop ↦
        mask_loop-stopped (suc fuel + more) orig hits i (ground arith)
        ∙ sym (mask_loop-stopped (suc fuel) orig hits i (ground arith))
    | inl go ↦
        let count : suc fuel + more ≡ suc (fuel + more) = omega arith in
        let (on, _) = next-gt f folded orig i full (ground (arith, same)) in
        let kept = length-masked f folded orig i in
        rw
          (
            count,
            mask_loop-round (fuel + more) orig hits i (ground arith),
            mask_loop-round fuel orig hits i (ground arith),
          )
          (mask_loop-fuel more fuel (masked f folded orig i) _ (next f folded orig i) full
            (omega (arith, kept)) (omega (arith, kept)))
  ]

-- A parsed word has a letter.
parse_line-full : (line : Text) (w : Word) → parse_line line ≡ some w → is_empty w.cp ≡ false
unfolding parse_line
parse_line-full line w h = ground arith

pub parse_lines-Full : (ls : List Text) → Full (parse_lines ls)
unfolding parse_lines
parse_lines-Full [] = tt
parse_lines-Full (line ∷ rest) = elim (Option-cases (parse_line line)) [
  | inl none' ↦
      subst Full {x = parse_lines rest} {y = parse_lines (line ∷ rest)}
        (rw (parse_lines, none') refl) (parse_lines-Full rest)
  | inr (w, e) ↦
      subst Full {x = w ∷ parse_lines rest} {y = parse_lines (line ∷ rest)}
        (rw (parse_lines, e) refl) (parse_line-full line w e, parse_lines-Full rest)
]

pub parse-Full : (list : Text) (enabled : Bool) → Full (parse list enabled).words
unfolding parse
parse-Full list enabled = parse_lines-Full (lines (length list) list)

-- For any word list and any line the loop of the filter ends in at most as many rounds as the line has
-- characters: the fuel that the model gives it, one for each character, changes nothing when it is more.
pub mask_loop-ends :
    (list : Text) (enabled : Bool) (text : Text) (more : ℕ)
    → mask_loop (parse list enabled) (map fold text) (length text + more) text 0 0
      ≡ mask_loop (parse list enabled) (map fold text) (length text) text 0 0
mask_loop-ends list enabled text more =
    mask_loop-fuel (parse list enabled) (map fold text) more (length text) text 0 0
      (parse-Full list enabled) (length-map fold text) (omega arith)
