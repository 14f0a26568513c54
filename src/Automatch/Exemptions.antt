-- ===== src/Automatch/Exemptions.antt =====
-- The exemptions of cosmetic mods in src/automatch.rs: `unapproved_exemption`.
use recomp_net_server.Common.{
  ℕ, ◌≡◌, inl, inr, refl, sym, ◌∙◌, Option, none, some, List, [], ◌∷◌, map, Bool, true, false, not,
  ◌&&◌, ◌||◌, ◌==◌, nat_eq, if◌then◌else◌, any, all, find, arith, Bool-cases,
}
use recomp_net_server.Common.Options.{◌>>=◌}
use recomp_net_server.Common.Text.{Text, text_eq, chars, trim, is_empty, to_ascii_lowercase}
use recomp_net_server.External.{Json}

-- `split(sep)`: the pieces between the separators, one more than there are separators.
unfoldable pub split : (sep : ℕ) → Text → Text × List Text
split sep [] = ([], [])
split sep (c ∷ s) =
    let (piece, pieces) = split sep s in
    if c == sep then ([], piece ∷ pieces) else (c ∷ piece, pieces)

abbrev pub pieces : (sep : ℕ) → Text → List Text
pieces sep s = (split sep s).0 ∷ (split sep s).1

-- `split_once('#')`, trimmed, or the text and no digest.
unfoldable pub split_digest : Text → Text × Text
split_digest [] = ([], [])
split_digest (c ∷ s) =
    let (name, digest) = split_digest s in if c == b'#' then ([], s) else (c ∷ name, digest)

abbrev pub name_of : Text → Text
name_of s = trim (split_digest s).0

abbrev pub digest_of : Text → Text
digest_of s = trim (split_digest s).1

abbrev pub eq_ignore_ascii_case : Text → Text → Bool
eq_ignore_ascii_case a b = to_ascii_lowercase a == to_ascii_lowercase b

-- One entry of the allowlist, trimmed, and one claim, trimmed.
unfoldable pub approves : (claim entry : Text) → Bool
approves claim entry =
    if is_empty entry
    then false
    else if not (eq_ignore_ascii_case (name_of entry) (name_of claim))
    then false
    else if is_empty (digest_of entry)
    then true
    else not (is_empty (digest_of claim))
      && eq_ignore_ascii_case (digest_of entry) (digest_of claim)

-- The loop over the entries, which ends at the first that approves.
unfoldable pub approved : (claim : Text) → List Text → Bool
approved claim [] = false
approved claim (entry ∷ allow) = if approves claim (trim entry) then true else approved claim allow

-- The loop over the claims.
unfoldable pub first_unapproved : (allow : Text) → List Text → Option Text
first_unapproved allow [] = none
first_unapproved allow (claim ∷ claims) =
    let c = trim claim in
    let rest = first_unapproved allow claims in
    if is_empty c then rest else if approved c (pieces b';' allow) then rest else some c

module _ (j : Json) where
  -- `match_caps.mod_cosmetic_allow`, empty when it is missing or no text.
  unfoldable pub allowlist : j.Value → Text
  allowlist caps = elim (j.get_field caps "mod_cosmetic_allow" >>= λ v. j.as_str v) [
    | none ↦ []
    | some s ↦ chars s
  ]

  unfoldable pub unapproved_exemption : j.Value → (claims : List Text) → Option Text
  unapproved_exemption caps claims =
      if is_empty claims then none else first_unapproved (allowlist caps) claims

-- The entries that name the claim's package.
abbrev pub names : (claim entry : Text) → Bool
names claim entry = eq_ignore_ascii_case (name_of (trim entry)) (name_of claim)

approved-any :
    (claim : Text) (allow : List Text)
    → approved claim allow ≡ any (λ e. approves claim (trim e)) allow
unfolding approved
approved-any claim [] = refl
approved-any claim (e ∷ allow) = ground (arith, approved-any claim allow)

-- What a list of claims asks for that the allowlist does not give: the claims that are not blank and that no
-- entry approves.
abbrev pub is_open : (allow claim : Text) → Bool
is_open allow claim =
    not (is_empty claim) && not (any (λ e. approves claim (trim e)) (pieces b';' allow))

first_unapproved-find :
    (allow : Text) (cs : List Text) → first_unapproved allow cs ≡ find (is_open allow) (map trim cs)
unfolding first_unapproved
first_unapproved-find allow [] = refl
first_unapproved-find allow (c ∷ cs) =
    let rest = first_unapproved-find allow cs in
    let any' = approved-any (trim c) (pieces b';' allow) in
    elim (Bool-cases (is_empty (trim c))) [
      | inl blank ↦ rw (blank, rest) refl
      | inr asks ↦ (elim (Bool-cases (approved (trim c) (pieces b';' allow))) [
        | inl given ↦ rw (asks, given, sym any', given) rest
        | inr refused ↦ rw (asks, refused, sym any', refused) refl
      ])
    ]

-- The check gives the first claim, trimmed, that is not blank and that no entry of the allowlist approves;
-- none when every claim is blank or approved.
pub unapproved_exemption-first :
    (j : Json) (caps : j.Value) (claims : List Text)
    → unapproved_exemption j caps claims ≡ find (is_open (allowlist j caps)) (map trim claims)
unfolding unapproved_exemption
unapproved_exemption-first j caps [] = refl
unapproved_exemption-first j caps (claim ∷ claims) =
    first_unapproved-find (allowlist j caps) (claim ∷ claims)

is_open-nothing : (c : Text) → is_open [] c ≡ not (is_empty c)
unfolding split approves trim
is_open-nothing [] = refl
is_open-nothing (x ∷ c) = refl

-- A ruleset without an allowlist, or with an empty one, approves nothing: the first claim that is not blank
-- is refused.
pub unapproved_exemption-closed :
    (j : Json) (caps : j.Value) (claims : List Text)
    → allowlist j caps ≡ []
    → unapproved_exemption j caps claims ≡ find (λ c. not (is_empty c)) (map trim claims)
unapproved_exemption-closed j caps claims h =
    unapproved_exemption-first j caps claims
    ∙ (rw h (find-ext (is_open []) (λ c. not (is_empty c)) is_open-nothing (map trim claims)))
  where
    find-ext :
        (p q : Text → Bool) → ((c : Text) → p c ≡ q c) → (xs : List Text) → find p xs ≡ find q xs
    find-ext p q e [] = refl
    find-ext p q e (x ∷ xs) = rw (e x, find-ext p q e xs) refl

-- A claim is approved only with its digest, when every entry that names its package pins one: the claim
-- then has a digest, and one of these entries has the same.
pub approved-pinned :
    (claim : Text) (allow : List Text)
    → all (λ e. not (names claim e) || not (is_empty (digest_of (trim e)))) allow ≡ true
    → approved claim allow ≡ true
    → (is_empty (digest_of claim) ≡ false)
      × (any
            (λ e. names claim e && eq_ignore_ascii_case (digest_of (trim e)) (digest_of claim))
            allow
          ≡ true)
unfolding approved approves
approved-pinned claim [] pins h = absurd (ground arith)
approved-pinned claim (e ∷ allow) pins h = ground (arith, approved-pinned claim allow)
