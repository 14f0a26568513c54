-- ===== src/Filter/Bounds.antt =====
-- How far a match of a word reaches (src/chat_filter.rs).
use recomp_net_server.Common.{
  ℕ, zero, suc, ◌+◌, ◌-◌, ◌≤◌, ◌<◌, ◌≡◌, inl, inr, some, List, [], ◌∷◌, Bool, true, false, not,
  ◌&&◌, ◌||◌, ltb, leb, ◌==◌, nat_eq, if◌then◌else◌, length, get_or, All, arith, Bool-cases,
  Option-cases,
}
use recomp_net_server.Common.Text.{Text, is_empty}
use recomp_net_server.Filter.{
  is_letter, is_separator, Word, starts_with, skip_while, skip, match_letters, match_at, best_end,
}

skip_while-le : (test : ℕ → Bool) (t : Text) (fuel p : ℕ) → p ≤ skip_while test t fuel p
unfolding skip_while
skip_while-le test t zero p = omega arith
skip_while-le test t (suc fuel) p = ground (arith, skip_while-le test t fuel (p + 1))

skip_while-bound :
    (test : ℕ → Bool) (t : Text) (fuel p : ℕ) → p ≤ length t → skip_while test t fuel p ≤ length t
unfolding skip_while
skip_while-bound test t zero p h = h
skip_while-bound test t (suc fuel) p h =
    elim (Bool-cases (ltb p (length t) && test (get_or t p 0))) [
      | inl go ↦ rw go (skip_while-bound test t fuel (p + 1) (ground arith))
      | inr stop ↦ rw stop h
    ]

-- Where a letter is looked for, and where the next one is.
abbrev pub letter_at : (t : Text) (sep later : Bool) → ℕ → ℕ
letter_at t sep later p = if later && sep then skip is_separator t p else p

abbrev pub behind : (t : Text) (want : ℕ) (cp : Text) → ℕ → ℕ
behind t want cp q = if starts_with want cp then q + 1 else skip (λ c. c == want) t (q + 1)

letter_at-bounds :
    (t : Text) (sep later : Bool) (p : ℕ)
    → p ≤ length t
    → (p ≤ letter_at t sep later p) × (letter_at t sep later p ≤ length t)
letter_at-bounds t sep later p b =
    let le = skip_while-le is_separator t (length t) p in
    let bound = skip_while-bound is_separator t (length t) p b in
    elim (Bool-cases (later && sep)) [
      | inl y ↦ (rw y le, rw y bound)
      | inr n ↦ (rw n (omega arith), rw n b)
    ]

behind-bounds :
    (t : Text) (want : ℕ) (cp : Text) (q : ℕ)
    → q < length t
    → (q < behind t want cp q) × (behind t want cp q ≤ length t)
behind-bounds t want cp q b =
    let le = skip_while-le (λ c. c == want) t (length t) (q + 1) in
    let bound = skip_while-bound (λ c. c == want) t (length t) (q + 1) (omega arith) in
    elim (Bool-cases (starts_with want cp)) [
      | inl y ↦ (rw y (omega arith), rw y (omega arith))
      | inr n ↦ (rw n (omega arith), rw n bound)
    ]

-- A match takes its first letter where it is looked for, and goes on behind it.
pub match_letters-first :
    (t : Text) (sep later : Bool) (want : ℕ) (cp : Text) (p e : ℕ)
    → match_letters t sep later (want ∷ cp) p ≡ some e
    → (letter_at t sep later p < length t)
      × (get_or t (letter_at t sep later p) 0 ≡ want)
      × (match_letters t sep true cp (behind t want cp (letter_at t sep later p)) ≡ some e)
unfolding match_letters
match_letters-first t sep later want cp p e h =
    elim (Bool-cases (
      leb (length t) (letter_at t sep later p)
      || not (get_or t (letter_at t sep later p) 0 == want))) [
        | inl stop ↦ let never = rw stop at h in absurd (ground arith)
        | inr go ↦ (ground arith, ground arith, rw go at h)
      ]

-- A match of a word ends behind its start and inside the line.
pub match_letters-bounds :
    (t : Text) (sep later : Bool) (cp : Text) (p e : ℕ)
    → p ≤ length t
    → match_letters t sep later cp p ≡ some e
    → (p ≤ e) × (e ≤ length t) × (is_empty cp ≡ false → p < e)
unfolding match_letters
match_letters-bounds t sep later [] p e b h =
    (ground arith, ground arith, λ n. absurd (ground arith))
match_letters-bounds t sep later (want ∷ cp) p e b h =
    let (inside, _, rest) = match_letters-first t sep later want cp p e h in
    let (after, _) = letter_at-bounds t sep later p b in
    let (next, bound) = behind-bounds t want cp (letter_at t sep later p) inside in
    let (le, end, _) =
      match_letters-bounds t sep true cp (behind t want cp (letter_at t sep later p)) e bound
        rest in
    (omega arith, end, λ _. omega arith)

pub match_at-bounds :
    (t orig : Text) (at : ℕ) (w : Word)
    → is_empty w.cp ≡ false
    → at ≤ length t
    → 0 < match_at t orig at w
    → (at < match_at t orig at w) × (match_at t orig at w ≤ length t)
unfolding match_at
match_at-bounds t orig at w full b h =
    elim (Option-cases (match_letters t (leb 4 (length w.cp)) false w.cp at)) [
      | inl none' ↦ absurd (ground (arith, none'))
      | inr (p, e) ↦
          let (_, end, beyond) = match_letters-bounds t (leb 4 (length w.cp)) false w.cp at p b e in
          (elim (Bool-cases (not w.anywhere && ltb 0 at && is_letter (get_or orig (at - 1) 0))) [
            | inl stop ↦ let never = rw stop at h in absurd (ground arith)
            | inr go ↦
                (elim (Bool-cases
                  (not w.anywhere && ltb p (length t) && is_letter (get_or orig p 0))) [
                    | inl stop ↦ let never = rw (go, e, stop) at h in absurd (ground arith)
                    | inr on ↦ (rw (go, e, on) (beyond full), rw (go, e, on) end)
                  ])
          ])
    ]

-- Words that have a letter, as the parser's have.
abbrev pub Full : List Word → Type 0
Full words = All (λ w. is_empty w.cp ≡ false) words

module _ (folded orig : Text) (i : ℕ) (inside : i ≤ length folded) where
  -- The best end stays a position behind `i`, or 0 for no match.
  abbrev pub IsEnd : ℕ → Type 0
  IsEnd e = 0 < e → (i < e) × (e ≤ length folded)

  pub best_end-IsEnd :
      (words : List Word) (best : ℕ)
      → Full words
      → IsEnd best
      → IsEnd (best_end folded orig i words best)
  unfolding best_end
  best_end-IsEnd [] best f h = h
  best_end-IsEnd (w ∷ words) best (full, f) h =
      best_end-IsEnd words _ f
        (λ pos. ground (arith, match_at-bounds folded orig i w full inside, h))
