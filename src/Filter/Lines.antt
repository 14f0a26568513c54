-- ===== src/Filter/Lines.antt =====
-- What `mask` gives for a line (src/chat_filter.rs), and the entries that match anywhere.
use recomp_net_server.Common.{
  ℕ, zero, suc, ◌≤◌, ◌<◌, ◌≡◌, inl, inr, refl, sym, some, List, [], ◌∷◌, map, length-map, Bool,
  true, false, not, ◌||◌, ltb, leb, ◌==◌, nat_eq, length, get_or, get_elem?, arith, Bool-cases,
  Option-cases,
}
use recomp_net_server.Common.Text.{Text, is_empty}
use recomp_net_server.Filter.{
  fold, is_letter, Word, ChatFilter, match_letters, match_at, mask_loop, mask, parse,
}
use recomp_net_server.Filter.Bounds.{match_letters-first}
use recomp_net_server.Filter.Masking.{next, hit, masked}
use recomp_net_server.Filter.Ending.{mask_loop-stopped, mask_loop-round, parse-Full}
use recomp_net_server.Filter.Hiding.{starred_after, All-get, match_at-anywhere}

module _ (f : ChatFilter) (folded : Text) where
  mask_loop-hits :
      (fuel : ℕ) (orig : Text) (hits i : ℕ) → hits ≤ (mask_loop f folded fuel orig hits i).1
  unfolding mask_loop
  mask_loop-hits zero orig hits i = omega arith
  mask_loop-hits (suc fuel) orig hits i = elim (Bool-cases (ltb i (length orig))) [
    | inr stop ↦ rw (mask_loop-stopped f folded (suc fuel) orig hits i (ground arith)) (omega arith)
    | inl go ↦ rw (mask_loop-round f folded fuel orig hits i (ground arith)) (
        ground (
          arith,
          mask_loop-hits fuel (masked f folded orig i) hits (next f folded orig i),
          mask_loop-hits fuel (masked f folded orig i) (suc hits) (next f folded orig i),
        ))
  ]

  -- A loop that counts no hit changes nothing.
  mask_loop-unhit :
      (fuel : ℕ) (orig : Text) (hits i : ℕ)
      → (mask_loop f folded fuel orig hits i).1 ≡ hits
      → (mask_loop f folded fuel orig hits i).0 ≡ orig
  unfolding mask_loop
  mask_loop-unhit zero orig hits i h = refl
  mask_loop-unhit (suc fuel) orig hits i h = elim (Bool-cases (ltb i (length orig))) [
    | inr stop ↦ rw (mask_loop-stopped f folded (suc fuel) orig hits i (ground arith)) refl
    | inl go ↦
        let round = mask_loop-round f folded fuel orig hits i (ground arith) in
        (elim (Bool-cases (hit f folded orig i)) [
          | inl y ↦
              let over =
                mask_loop-hits fuel (masked f folded orig i) (suc hits) (next f folded orig i) in
              let count = rw (round, y) at h in absurd (ground (arith, over, y))
          | inr n ↦
              let count = rw (round, n) at h in
              rw (round, n) (mask_loop-unhit fuel orig hits (next f folded orig i) count)
        ])
  ]

pub mask-loop :
    (f : ChatFilter) (text : Text)
    → f.enabled ≡ true
    → is_empty f.words ≡ false
    → mask f text ≡ (mask_loop f (map fold text) (length text) text 0 0).0
unfolding mask
mask-loop f text on full =
    let off : (not f.enabled || is_empty f.words) ≡ false = ground arith in
    elim (Bool-cases ((mask_loop f (map fold text) (length text) text 0 0).1 == 0)) [
      | inl none' ↦
          let same = mask_loop-unhit f (map fold text) (length text) text 0 0 (ground arith) in
          rw (off, none') (sym same)
      | inr some' ↦ rw (off, some') refl
    ]

match_at-inside :
    (t orig : Text) (at : ℕ) (w : Word)
    → is_empty w.cp ≡ false
    → 0 < match_at t orig at w
    → at < length t
unfolding match_at
match_at-inside t orig at w full h =
    elim (Option-cases (match_letters t (leb 4 (length w.cp)) false w.cp at)) [
      | inl none' ↦ absurd (ground (arith, none'))
      | inr (p, e) ↦ first (leb 4 (length w.cp)) w.cp p full e
    ]
  where
    first :
        (sep : Bool) (cp : Text) (p : ℕ)
        → is_empty cp ≡ false
        → match_letters t sep false cp at ≡ some p
        → at < length t
    first sep [] p full' e = absurd (ground arith)
    first sep (c ∷ cp) p full' e =
        let (inside, _, _) = match_letters-first t sep false c cp at p e in inside

words-some : (ws : List Word) (m : ℕ) (w : Word) → get_elem? ws m ≡ some w → is_empty ws ≡ false
words-some [] m w h = absurd (ground arith)
words-some (v ∷ ws) m w h = refl

-- Under a filter that is on, with any word list: where the folded line matches, at a letter, an entry
-- that matches anywhere, the masked line has a star.
pub mask-hides :
    (list text : Text) (j m : ℕ) (w : Word)
    → get_elem? (parse list true).words m ≡ some w
    → w.anywhere ≡ true
    → is_letter (get_or (map fold text) j 0) ≡ true
    → 0 < match_at (map fold text) text j w
    → get_elem? (mask (parse list true) text) j ≡ some b'*'
unfolding parse
mask-hides list text j m w named any' letter found =
    let f = parse list true in
    let full = parse-Full list true in
    let same = length-map fold text in
    let inside =
      match_at-inside (map fold text) text j w
        (All-get (λ v. is_empty v.cp ≡ false) f.words m w full named) found in
    rw (mask-loop f text refl (words-some f.words m w named)) (
      starred_after f full (map fold text) j m w named (length text) text 0 0 same
        (omega (arith, same)) (omega arith) (omega arith) letter
        (λ o. ground (arith, match_at-anywhere (map fold text) text o j w any')))
