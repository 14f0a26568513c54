-- ===== src/Filter/Hiding.antt =====
-- What the filter's list names does not come through (src/chat_filter.rs).
use recomp_net_server.Common.{
  ℕ, zero, suc, ◌+◌, ◌≤◌, ◌<◌, ◌≡◌, inl, inr, refl, sym, subst, ◌∙◌, some, List, [], ◌∷◌, Bool,
  true, false, ltb, leb, ◌==◌, nat_eq, if◌then◌else◌, length, get_or, get_elem?, All, arith,
  Bool-cases, Option-cases,
}
use recomp_net_server.Common.Text.{Text, is_empty}
use recomp_net_server.Filter.{
  is_letter, Word, ChatFilter, match_letters, match_at, best_end, star, next_position, mask_loop,
}
use recomp_net_server.Filter.Bounds.{Full, match_letters-first}
use recomp_net_server.Filter.Masking.{next, hit, masked, length-masked, next-gt}
use recomp_net_server.Filter.Ending.{mask_loop-stopped, mask_loop-round}

star-before : (s : Text) (from to k : ℕ) → k < from → get_elem? (star s from to) k ≡ get_elem? s k
unfolding star
star-before [] from to k h = refl
star-before (c ∷ s) from zero k h = refl
star-before (c ∷ s) zero (suc to) k h = absurd (omega arith)
star-before (c ∷ s) (suc from) (suc to) zero h = refl
star-before (c ∷ s) (suc from) (suc to) (suc k) h = star-before s from to k (omega arith)

star-inside :
    (s : Text) (from to k : ℕ)
    → from ≤ k
    → k < to
    → k < length s
    → get_elem? (star s from to) k ≡ some b'*'
unfolding star
star-inside [] from to k h l b = absurd (omega arith)
star-inside (c ∷ s) from zero k h l b = absurd (omega arith)
star-inside (c ∷ s) zero (suc to) zero h l b = refl
star-inside (c ∷ s) zero (suc to) (suc k) h l b =
    star-inside s zero to k (omega arith) (omega arith) (omega arith)
star-inside (c ∷ s) (suc from) (suc to) zero h l b = absurd (omega arith)
star-inside (c ∷ s) (suc from) (suc to) (suc k) h l b =
    star-inside s from to k (omega arith) (omega arith) (omega arith)

module _ (folded orig : Text) (i : ℕ) where
  -- The best end with one more word looked at.
  abbrev choose : Word → ℕ → ℕ
  choose w best =
      if get_or w.cp 0 0 == get_or folded i 0
      then (if ltb best (match_at folded orig i w) then match_at folded orig i w else best)
      else best

  choose-le : (w : Word) (best : ℕ) → best ≤ choose w best
  choose-le w best = ground arith

  choose-reaches :
      (w : Word) (best : ℕ)
      → get_or w.cp 0 0 ≡ get_or folded i 0
      → match_at folded orig i w ≤ choose w best
  choose-reaches w best h = ground arith

  best_end-le : (words : List Word) (best : ℕ) → best ≤ best_end folded orig i words best
  unfolding best_end
  best_end-le [] best = omega arith
  best_end-le (w ∷ words) best = omega (arith, choose-le w best, best_end-le words (choose w best))

  best_end-reaches :
      (words : List Word) (best m : ℕ) (w : Word)
      → get_elem? words m ≡ some w
      → get_or w.cp 0 0 ≡ get_or folded i 0
      → match_at folded orig i w ≤ best_end folded orig i words best
  unfolding best_end
  best_end-reaches [] best m w h e = absurd (ground arith)
  best_end-reaches (v ∷ words) best zero w h e =
      let same : w ≡ v = ground arith in
      let reach : match_at folded orig i w ≤ choose v best =
        rw same (choose-reaches v best (ground arith)) in
      omega (arith, reach, best_end-le words (choose v best))
  best_end-reaches (v ∷ words) best (suc m) w h e = best_end-reaches words (choose v best) m w h e

-- A match begins at the first letter of its word.
match_letters-head :
    (t : Text) (sep : Bool) (cp : Text) (at e : ℕ)
    → is_empty cp ≡ false
    → match_letters t sep false cp at ≡ some e
    → get_or cp 0 0 ≡ get_or t at 0
match_letters-head t sep [] at e full h = absurd (ground arith)
match_letters-head t sep (want ∷ cp) at e full h =
    let (_, same, _) = match_letters-first t sep false want cp at e h in sym same

match_at-head :
    (t orig : Text) (at : ℕ) (w : Word)
    → is_empty w.cp ≡ false
    → 0 < match_at t orig at w
    → get_or w.cp 0 0 ≡ get_or t at 0
unfolding match_at
match_at-head t orig at w full h =
    elim (Option-cases (match_letters t (leb 4 (length w.cp)) false w.cp at)) [
      | inl none' ↦ absurd (ground (arith, none'))
      | inr (p, e) ↦ match_letters-head t (leb 4 (length w.cp)) w.cp at p full e
    ]

-- An entry that matches anywhere does not look at the line as it stands.
pub match_at-anywhere :
    (t orig orig' : Text) (at : ℕ) (w : Word)
    → w.anywhere ≡ true
    → match_at t orig at w ≡ match_at t orig' at w
unfolding match_at
match_at-anywhere t orig orig' at w h =
    elim (Option-cases (match_letters t (leb 4 (length w.cp)) false w.cp at)) [
      | inl none' ↦ rw (none', h) refl
      | inr (p, e) ↦ rw (e, h) refl
    ]

unhit-next :
    (f : ChatFilter) (folded orig : Text) (i : ℕ)
    → hit f folded orig i ≡ false
    → next f folded orig i ≡ i + 1
unfolding next_position
unhit-next f folded orig i h = ground arith

pub All-get :
    {A : Type 0} (P : A → Type 0) (xs : List A) (m : ℕ) (x : A)
    → All P xs
    → get_elem? xs m ≡ some x
    → P x
All-get P [] m x h e = absurd (ground arith)
All-get P (y ∷ xs) zero x h e = let same : y ≡ x = ground arith in subst P {x = y} {y = x} same h.0
All-get P (y ∷ xs) (suc m) x h e = All-get P xs m x h.1 e

module _ (f : ChatFilter) (full : Full f.words) (folded : Text) where
  -- What the loop has passed it does not write again.
  mask_loop-keeps :
      (fuel : ℕ) (orig : Text) (hits i k : ℕ)
      → length folded ≡ length orig
      → k < i
      → get_elem? (mask_loop f folded fuel orig hits i).0 k ≡ get_elem? orig k
  unfolding mask_loop
  mask_loop-keeps zero orig hits i k same h = refl
  mask_loop-keeps (suc fuel) orig hits i k same h = elim (Bool-cases (ltb i (length orig))) [
    | inr stop ↦ rw (mask_loop-stopped f folded (suc fuel) orig hits i (ground arith)) refl
    | inl go ↦
        let (on, _) = next-gt f folded orig i full (ground (arith, same)) in
        rw (mask_loop-round f folded fuel orig hits i (ground arith)) (
          mask_loop-keeps fuel (masked f folded orig i) _ (next f folded orig i) k
            (omega (arith, length-masked f folded orig i)) (omega arith)
          ∙ masked-before orig i k h)
  ]
    where
      masked-before :
          (orig : Text) (i k : ℕ) → k < i → get_elem? (masked f folded orig i) k ≡ get_elem? orig k
      masked-before orig i k h = elim (Bool-cases (hit f folded orig i)) [
        | inl y ↦ rw y (star-before orig i (next f folded orig i) k h)
        | inr n ↦ rw n refl
      ]

  module _ (j : ℕ) (m : ℕ) (w : Word) (named : get_elem? f.words m ≡ some w) where
    hit-at :
        (orig : Text)
        → is_letter (get_or folded j 0) ≡ true
        → 0 < match_at folded orig j w
        → hit f folded orig j ≡ true
    unfolding next_position
    hit-at orig l found =
        let head =
          match_at-head folded orig j w
            (All-get (λ v. is_empty v.cp ≡ false) f.words m w full named) found in
        let reach = best_end-reaches folded orig j f.words 0 m w named head in ground (arith, reach)

    pub starred_after :
        (fuel : ℕ) (orig : Text) (hits i : ℕ)
        → length folded ≡ length orig
        → j < length orig
        → i ≤ j
        → length orig ≤ i + fuel
        → is_letter (get_or folded j 0) ≡ true
        → ((o : Text) → 0 < match_at folded o j w)
        → get_elem? (mask_loop f folded fuel orig hits i).0 j ≡ some b'*'
    starred_after zero orig hits i same b le enough l found = absurd (omega arith)
    starred_after (suc fuel) orig hits i same b le enough l found =
        let (on, _) = next-gt f folded orig i full (omega (arith, same)) in
        let kept = length-masked f folded orig i in
        rw (mask_loop-round f folded fuel orig hits i (omega arith))
          (elim (Bool-cases (ltb j (next f folded orig i))) [
            | inr later ↦
                starred_after fuel (masked f folded orig i) _ (next f folded orig i)
                  (omega (arith, kept)) (omega (arith, kept)) (ground arith) (omega (arith, kept)) l
                  found
            | inl over ↦
                mask_loop-keeps fuel (masked f folded orig i) _ (next f folded orig i) j
                  (omega (arith, kept)) (ground arith)
                ∙ here orig i b le (ground arith) l (found orig)
          ])
      where
        here :
            (orig : Text) (i : ℕ)
            → j < length orig
            → i ≤ j
            → j < next f folded orig i
            → is_letter (get_or folded j 0) ≡ true
            → 0 < match_at folded orig j w
            → get_elem? (masked f folded orig i) j ≡ some b'*'
        here orig i b le over l found = elim (Bool-cases (hit f folded orig i)) [
          | inl y ↦ rw y (star-inside orig i (next f folded orig i) j le over b)
          | inr n ↦
              let one = unhit-next f folded orig i n in
              let same : i ≡ j = omega (arith, one) in
              let y = hit-at orig l found in absurd (ground (arith, same))
        ]
