-- ===== src/Names/Sanitized.antt =====
-- What a name that passed the gate is like (src/names.rs).
use recomp_net_server.Common.{
  ℕ, zero, suc, ◌+◌, ◌≤◌, ◌≡◌, inl, inr, refl, subst, Option, none, some, [], ◌∷◌, Bool, true,
  false, not, ltb, length, retain, All, arith, Bool-cases,
}
use recomp_net_server.Common.Text.{
  Text, is_control, is_whitespace, len_utf8, len_bytes, trim, trim_start, trim_end, take, is_empty,
}
use recomp_net_server.Names.{push_while, sanitize}

abbrev pub Clean : Text → Type 0
Clean = All (λ c. is_control c ≡ false)

abbrev pub last_char : Text → Option ℕ
last_char [] = none
last_char (c ∷ []) = some c
last_char (c ∷ d ∷ s) = last_char (d ∷ s)

abbrev pub blank : Option ℕ → Bool
blank none = false
blank (some c) = is_whitespace c

abbrev pub first_char : Text → Option ℕ
first_char [] = none
first_char (c ∷ s) = some c

-- A name fit to be stored: not empty, at most 32 characters and 63 bytes, no control character, no
-- white space at either end.
unfoldable pub IsName : Text → Type 0
IsName s =
    (is_empty s ≡ false)
    × (length s ≤ 32)
    × (len_bytes s ≤ 63)
    × Clean s
    × (blank (first_char s) ≡ false)
    × (blank (last_char s) ≡ false)

-- A text within the caps: what a step of the gate takes and leaves.
abbrev Within : Text → Type 0
Within s = (length s ≤ 32) × (len_bytes s ≤ 63) × Clean s

retain-Clean : (s : Text) → Clean (retain (λ c. not (is_control c)) s)
retain-Clean [] = tt
retain-Clean (c ∷ s) = elim (Bool-cases (is_control c)) [
  | inl y ↦ subst Clean {x = retain (λ x. not (is_control x)) s} (rw y refl) (retain-Clean s)
  | inr n ↦ subst Clean {x = c ∷ retain (λ x. not (is_control x)) s} (rw n refl) (n, retain-Clean s)
]

take-Clean : (n : ℕ) (s : Text) → Clean s → (length (take n s) ≤ n) × Clean (take n s)
take-Clean zero s h = (omega arith, tt)
take-Clean (suc n) [] h = (omega arith, tt)
take-Clean (suc n) (c ∷ s) (h, hs) =
    let (le, clean) = take-Clean n s hs in (omega arith, (h, clean))

push_while-Within :
    (used : ℕ) (s : Text)
    → used ≤ 63
    → Clean s
    → (length (push_while used s) ≤ length s)
      × (used + len_bytes (push_while used s) ≤ 63)
      × Clean (push_while used s)
unfolding push_while len_bytes
push_while-Within used [] b h = (omega arith, omega arith, tt)
push_while-Within used (c ∷ s) b (h, hs) = elim (Bool-cases (ltb 63 (used + len_utf8 c))) [
  | inl over ↦ rw over (omega arith, omega arith, tt)
  | inr fits ↦
      let (le, bytes, clean) = push_while-Within (used + len_utf8 c) s (ground arith) hs in
      rw fits (omega arith, omega arith, (h, clean))
]

-- What a cut leaves is no longer than what it is cut from.
abbrev Cut : Text → Text → Type 0
Cut s t = (length t ≤ length s) × (len_bytes t ≤ len_bytes s) × Clean t

trim_start-Cut :
    (s : Text) → Clean s → Cut s (trim_start s) × (blank (first_char (trim_start s)) ≡ false)
unfolding len_bytes
trim_start-Cut [] h = ((omega arith, omega arith, tt), refl)
trim_start-Cut (c ∷ s) (h, hs) = elim (Bool-cases (is_whitespace c)) [
  | inl y ↦
      let ((le, bytes, clean), first) = trim_start-Cut s hs in
      rw y ((omega arith, omega arith, clean), first)
  | inr n ↦ rw n ((omega arith, omega arith, (h, hs)), n)
]

pub last_char-last : (c : ℕ) (t : Text) → is_empty t ≡ true → last_char (c ∷ t) ≡ some c
last_char-last c [] h = refl
last_char-last c (d ∷ t) h = absurd (ground arith)

pub last_char-more : (c : ℕ) (t : Text) → is_empty t ≡ false → last_char (c ∷ t) ≡ last_char t
last_char-more c [] h = absurd (ground arith)
last_char-more c (d ∷ t) h = refl

trim_end-Cut : (s : Text) → Clean s → Cut s (trim_end s) × (blank (last_char (trim_end s)) ≡ false)
unfolding len_bytes
trim_end-Cut [] h = ((omega arith, omega arith, tt), refl)
trim_end-Cut (c ∷ s) (h, hs) =
    let ((le, bytes, clean), last) = trim_end-Cut s hs in
    (elim (Bool-cases (is_empty (trim_end s))) [
      | inr more ↦
          rw more
            ((omega arith, omega arith, (h, clean)), rw (last_char-more c (trim_end s) more) last)
      | inl done ↦ (elim (Bool-cases (is_whitespace c)) [
        | inl y ↦ rw (done, y) ((omega arith, omega arith, tt), refl)
        | inr n ↦
            rw (done, n)
              ((omega arith, omega arith, (h, clean)), rw (last_char-last c (trim_end s) done) n)
      ])
    ])

-- Cutting the end keeps the first character.
trim_end-first : (s : Text) → blank (first_char s) ≡ false → blank (first_char (trim_end s)) ≡ false
trim_end-first [] h = refl
trim_end-first (c ∷ s) h = elim (Bool-cases (is_empty (trim_end s))) [
  | inl done ↦ rw (done, h) h
  | inr more ↦ rw more h
]

-- A name that the gate lets through is fit to be stored, whatever the client sent: not empty, at most 32
-- characters and 63 bytes, without a control character, without white space at either end.
pub sanitize-IsName : (name : Option Text) (n : Text) → sanitize name ≡ some n → IsName n
unfolding sanitize trim IsName
sanitize-IsName none n h = absurd (ground arith)
sanitize-IsName (some s) n h =
    let filtered = retain (λ c. not (is_control c)) s in
    let (short, clean) = take-Clean 32 filtered (retain-Clean s) in
    let (le, bytes, pushed) = push_while-Within 0 (take 32 filtered) (omega arith) clean in
    let out = push_while 0 (take 32 filtered) in
    let ((le1, bytes1, clean1), first) = trim_start-Cut out pushed in
    let ((le2, bytes2, clean2), last) = trim_end-Cut (trim_start out) clean1 in
    let first' = trim_end-first (trim_start out) first in
    elim (Bool-cases (is_empty (trim_end (trim_start out)))) [
      | inl gone ↦ let never = rw gone at h in absurd (ground arith)
      | inr kept ↦
          let same : trim_end (trim_start out) ≡ n = let e = rw kept at h in ground arith in
          subst
            (λ t.
              (is_empty t ≡ false)
              × (length t ≤ 32)
              × (len_bytes t ≤ 63)
              × Clean t
              × (blank (first_char t) ≡ false)
              × (blank (last_char t) ≡ false))
            {x = trim_end (trim_start out)} {y = n} same
            (kept, omega arith, omega arith, clean2, first', last)
    ]
