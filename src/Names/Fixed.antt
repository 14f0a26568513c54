-- ===== src/Names/Fixed.antt =====
-- The names that the gate of src/names.rs leaves as they are.
use recomp_net_server.Common.{
  ℕ, zero, suc, ◌+◌, ◌≤◌, ◌≡◌, ◌↔◌, inl, inr, refl, subst, ap, Option, some, [], ◌∷◌, false, not,
  ltb, length, retain, arith, Bool-cases, Option-cases,
}
use recomp_net_server.Common.Text.{
  Text, is_control, len_utf8, len_bytes, trim, trim_start, trim_end, take, text_beq, text_beq_iff,
}
use recomp_net_server.Filter.{ChatFilter, mask}
use recomp_net_server.Names.{push_while, sanitize, is_refused, acceptable}
use recomp_net_server.Names.Sanitized.{Clean, IsName, blank, first_char, last_char, sanitize-IsName}

retain_fixed : (s : Text) → Clean s → retain (λ c. not (is_control c)) s ≡ s
retain_fixed [] h = refl
retain_fixed (c ∷ s) (h, hs) = rw h (ap (λ t. c ∷ t) (retain_fixed s hs))

take_fixed : (n : ℕ) (s : Text) → length s ≤ n → take n s ≡ s
take_fixed zero [] h = refl
take_fixed zero (c ∷ s) h = absurd (omega arith)
take_fixed (suc n) [] h = refl
take_fixed (suc n) (c ∷ s) h = ap (λ t. c ∷ t) (take_fixed n s (omega arith))

push_while_fixed : (used : ℕ) (s : Text) → used + len_bytes s ≤ 63 → push_while used s ≡ s
unfolding push_while len_bytes
push_while_fixed used [] h = refl
push_while_fixed used (c ∷ s) h =
    let fits : ltb 63 (used + len_utf8 c) ≡ false = ground arith in
    rw fits (ap (λ t. c ∷ t) (push_while_fixed (used + len_utf8 c) s (omega arith)))

trim_start_fixed : (s : Text) → blank (first_char s) ≡ false → trim_start s ≡ s
trim_start_fixed [] h = refl
trim_start_fixed (c ∷ s) h = rw h refl

trim_end_fixed : (s : Text) → blank (last_char s) ≡ false → trim_end s ≡ s
trim_end_fixed [] h = refl
trim_end_fixed (c ∷ []) h = rw h refl
trim_end_fixed (c ∷ d ∷ s) h = let rest = trim_end_fixed (d ∷ s) h in rw rest refl

-- The gate leaves a name as it is exactly when the name is fit to be stored.
pub sanitize-fixed_iff : (n : Text) → (sanitize (some n) ≡ some n) ↔ IsName n
unfolding sanitize trim IsName
sanitize-fixed_iff n = (sanitize-IsName (some n) n, λ h. back h)
  where
    back : IsName n → sanitize (some n) ≡ some n
    back (full, le, bytes, clean, first, last) =
        rw
          (
            retain_fixed n clean,
            take_fixed 32 n le,
            push_while_fixed 0 n (omega arith),
            trim_start_fixed n first,
            trim_end_fixed n last,
            full,
          )
          refl

-- What the gate lets through, it lets through again unchanged.
pub sanitize-idempotent :
    (name : Option Text) (n : Text) → sanitize name ≡ some n → sanitize (some n) ≡ some n
sanitize-idempotent name n h =
    let (_, back) = sanitize-fixed_iff n in back (sanitize-IsName name n h)

-- An acceptable name is fit to be stored and the filter leaves it as it is; and the gate accepts it again,
-- unchanged.
pub acceptable-clean :
    (f : ChatFilter) (name : Option Text) (n : Text)
    → acceptable f name ≡ some n
    → IsName n × (mask f n ≡ n) × (acceptable f (some n) ≡ some n)
unfolding acceptable is_refused
acceptable-clean f name n h = elim (Option-cases (sanitize name)) [
  | inl gone ↦ let never = rw gone at h in absurd (ground arith)
  | inr (s, e) ↦ (elim (Bool-cases (text_beq (mask f s) s)) [
    | inr refused ↦ let never = rw (e, refused) at h in absurd (ground arith)
    | inl kept ↦
        let done = rw (e, kept) at h in
        let same : s ≡ n = ground arith in
        let (equal, _) = text_beq_iff (mask f s) s in
        subst (λ t. IsName t × (mask f t ≡ t) × (acceptable f (some t) ≡ some t)) {x = s} {y = n}
          same (sanitize-IsName name s e, equal kept, rw (sanitize-idempotent name s e, kept) refl)
  ])
]
