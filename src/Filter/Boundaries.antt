-- ===== src/Filter/Boundaries.antt =====
-- The boundary test of whole-word entries (src/chat_filter.rs) in a line without a lower-case letter.
use recomp_net_server.Common.{
  ℕ, zero, suc, ◌-◌, ◌<◌, ◌≡◌, ◌⊎◌, inl, inr, refl, sym, List, [], ◌∷◌, map, true, false, leb,
  nat_eq, length, get_or, All, arith, Bool-cases, Option-cases,
}
use recomp_net_server.Common.Text.{Text, is_empty}
use recomp_net_server.Filter.{
  fold, is_letter, Word, ChatFilter, match_letters, match_at, best_end, star, next_position,
  mask_loop, mask,
}
use recomp_net_server.Filter.Masking.{next, hit, masked}

-- The entries with their boundaries given up.
abbrev pub loose : Word → Word
loose w = record w { anywhere = true }

unfoldable pub everywhere : ChatFilter → ChatFilter
everywhere f = record f { words = map loose f.words }

-- No character of the line counts as a letter.
abbrev pub Unlettered : Text → Type 0
Unlettered = All (λ c. is_letter c ≡ false)

get_or-Unlettered : (s : Text) (k : ℕ) → Unlettered s → is_letter (get_or s k 0) ≡ false
unfolding is_letter
get_or-Unlettered [] k h = refl
get_or-Unlettered (c ∷ s) zero h = h.0
get_or-Unlettered (c ∷ s) (suc k) h = get_or-Unlettered s k h.1

star-Unlettered : (s : Text) (from to : ℕ) → Unlettered s → Unlettered (star s from to)
unfolding star is_letter
star-Unlettered [] from to h = tt
star-Unlettered (c ∷ s) from zero h = h
star-Unlettered (c ∷ s) zero (suc to) h = (refl, star-Unlettered s zero to h.1)
star-Unlettered (c ∷ s) (suc from) (suc to) h = (h.0, star-Unlettered s from to h.1)

match_at-loose :
    (t orig : Text) (at : ℕ) (w : Word)
    → Unlettered orig
    → match_at t orig at w ≡ match_at t orig at (loose w)
unfolding match_at
match_at-loose t orig at w h =
    let before = get_or-Unlettered orig (at - 1) h in
    elim (Option-cases (match_letters t (leb 4 (length w.cp)) false w.cp at)) [
      | inl none' ↦ rw (before, none') (ground arith)
      | inr (p, e) ↦ let after = get_or-Unlettered orig p h in rw (before, e, after) (ground arith)
    ]

best_end-loose :
    (folded orig : Text) (i : ℕ) (words : List Word) (best : ℕ)
    → Unlettered orig
    → best_end folded orig i words best ≡ best_end folded orig i (map loose words) best
unfolding best_end
best_end-loose folded orig i [] best h = refl
best_end-loose folded orig i (w ∷ words) best h =
    rw (match_at-loose folded orig i w h) (best_end-loose folded orig i words _ h)

next_position-loose :
    (f : ChatFilter) (folded orig : Text) (i : ℕ)
    → Unlettered orig
    → next_position f folded orig i ≡ next_position (everywhere f) folded orig i
unfolding next_position everywhere
next_position-loose f folded orig i h = rw (best_end-loose folded orig i f.words 0 h) refl

masked-Unlettered :
    (f : ChatFilter) (folded orig : Text) (i : ℕ)
    → Unlettered orig
    → Unlettered (masked f folded orig i)
masked-Unlettered f folded orig i h = elim (Bool-cases (hit f folded orig i)) [
  | inl y ↦ rw y (star-Unlettered orig i (next f folded orig i) h)
  | inr n ↦ rw n h
]

mask_loop-loose :
    (f : ChatFilter) (folded : Text) (fuel : ℕ) (orig : Text) (hits i : ℕ)
    → Unlettered orig
    → mask_loop f folded fuel orig hits i ≡ mask_loop (everywhere f) folded fuel orig hits i
unfolding mask_loop
mask_loop-loose f folded zero orig hits i h = refl
mask_loop-loose f folded (suc fuel) orig hits i h =
    rw (sym (next_position-loose f folded orig i h)) (
      rw
        (mask_loop-loose f folded fuel (masked f folded orig i) _ (next f folded orig i)
          (masked-Unlettered f folded orig i h))
        refl)

is_empty-map : (ws : List Word) → is_empty (map loose ws) ≡ is_empty ws
is_empty-map [] = refl
is_empty-map (w ∷ ws) = refl

-- ASCII without a lower-case letter: capitals, digits, signs and blanks.
unfoldable pub Shouted : Text → Type 0
Shouted = All (λ c. (c < 128) × ((c < b'a') ⊎ (b'z' < c)))

Shouted-Unlettered : (text : Text) → Shouted text → Unlettered text
unfolding Shouted is_letter
Shouted-Unlettered [] h = tt
Shouted-Unlettered (c ∷ text) (a, h) = (ground (arith, a), Shouted-Unlettered text h)

-- In a line of ASCII characters without a lower-case letter, one in capitals for instance, whole-word
-- entries match inside words: the masked line is the one that the same list gives with every
-- entry matching anywhere.
pub mask-everywhere :
    (f : ChatFilter) (text : Text) → Shouted text → mask f text ≡ mask (everywhere f) text
unfolding mask everywhere
mask-everywhere f text h =
    let plain = Shouted-Unlettered text h in
    rw (is_empty-map f.words, mask_loop-loose f (map fold text) (length text) text 0 0 plain) refl
