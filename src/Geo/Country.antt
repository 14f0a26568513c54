-- ===== src/Geo/Country.antt =====
-- From the ranges that tools/gen_ip_country.py merged to the country that src/ip_country.rs answers.
use recomp_net_server.Common.{
  ℕ, zero, suc, ◌+◌, ◌*◌, ◌≤◌, ◌<◌, ◌≡◌, refl, subst, ◌∙◌, ap, ap₂, Option, none, some, List, [],
  ◌∷◌, ◌++◌, Bool, true, false, ◌&&◌, ltb, leb, nat_eq, arith, length, get_elem?, find, any,
  Bool-cases, inl, inr,
}
use recomp_net_server.Common.Text.{within}
use recomp_net_server.Common.Bytes.{Bytes, slice, room, slice-append, slice-behind}
use recomp_net_server.Geo.{read_le}
use recomp_net_server.Geo.Generator.{Cc, cc_eq, Range, index_of, packed, read_le-behind}

-- A field of an element that `packed` packs at the width `w`.
module _ {A : Type 0} (f : A → Bytes) (w : ℕ) (width : (x : A) → length (f x) ≡ w) where
  pub read_le-at :
      (n o v : ℕ) (xs : List A) (i : ℕ) (x : A)
      → get_elem? xs i ≡ some x
      → ((rest : Bytes) → read_le n (f x ++ rest) o ≡ some v)
      → read_le n (packed f xs) (i * w + o) ≡ some v
  unfolding packed
  read_le-at n o v [] i x h r = absurd (ground arith)
  read_le-at n o v (y ∷ xs) zero x h r =
      let same : y ≡ x = ground arith in
      let at : 0 * w + o ≡ o = omega arith in rw (at, same) (r (packed f xs))
  read_le-at n o v (y ∷ xs) (suc i) x h r =
      read_le-behind n (f y) (packed f xs) (suc i * w + o) (i * w + o) (omega (arith, width y))
      ∙ read_le-at n o v xs i x h r

  pub slice-at :
      (xs : List A) (i : ℕ) (x : A)
      → get_elem? xs i ≡ some x
      → slice (packed f xs) (i * w) (i * w + w) ≡ some (f x)
  unfolding packed
  slice-at [] i x h = absurd (ground arith)
  slice-at (y ∷ xs) zero x h =
      let same : y ≡ x = ground arith in
      rw same (
        slice-append [] (f x) (packed f xs) (0 * w) (0 * w + w) (omega arith)
          (omega (arith, width x)))
  slice-at (y ∷ xs) (suc i) x h =
      slice-behind (f y) (packed f xs) (suc i * w) (suc i * w + w) (i * w) (i * w + w)
        (omega (arith, width y)) (omega (arith, width y))
      ∙ slice-at xs i x h

pub index_of-found :
    (codes : List Cc) (cc : Cc)
    → any (λ c. cc_eq c cc) codes ≡ true
    → get_elem? codes (index_of codes cc) ≡ some cc
unfolding index_of
index_of-found [] cc h = absurd (ground arith)
index_of-found (c ∷ codes) cc h = elim (Bool-cases (cc_eq c cc)) [
  | inl y ↦ rw y (ap some (ap₂ (λ a b. (a, b)) (ground arith) (ground arith)))
  | inr n ↦ rw n (index_of-found codes cc (ground arith))
]

abbrev pub is_upper : ℕ → Bool
is_upper c = within b'A' b'Z' c

-- What the generator grants: countries of two capital letters that are among the codes, and ranges that
-- are not empty, ascend without overlap from `lo`, and fit 32 bits.
unfoldable pub Packable : List Cc → ℕ → List Range → Type 0
Packable codes lo [] = Unit
Packable codes lo (r ∷ rs) =
    (lo ≤ r.start)
    × (r.start < r.stop)
    × (r.stop < room 4)
    × (is_upper (r.cc).0 ≡ true)
    × (is_upper (r.cc).1 ≡ true)
    × (any (λ c. cc_eq c r.cc) codes ≡ true)
    × Packable codes r.stop rs

abbrev pub Fits : List Cc → ℕ → Range → Type 0
Fits codes lo r =
    (lo ≤ r.start)
    × (r.start < r.stop)
    × (r.stop < room 4)
    × (is_upper (r.cc).0 ≡ true)
    × (is_upper (r.cc).1 ≡ true)
    × (any (λ c. cc_eq c r.cc) codes ≡ true)

pub Packable-at :
    (codes : List Cc) (lo : ℕ) (rs : List Range) (i : ℕ) (r : Range)
    → Packable codes lo rs
    → get_elem? rs i ≡ some r
    → Fits codes lo r
unfolding Packable
Packable-at codes lo [] i r p h = absurd (ground arith)
Packable-at codes lo (q ∷ rs) zero r (a, b, c, d, e, f, rest) h =
    let same : q ≡ r = ground arith in subst (Fits codes lo) {x = q} {y = r} same (a, b, c, d, e, f)
Packable-at codes lo (q ∷ rs) (suc i) r (a, b, c, d, e, f, rest) h =
    let (a', b', c', d', e', f') = Packable-at codes q.stop rs i r rest h in
    (omega arith, b', c', d', e', f')

pub Packable-order :
    (codes : List Cc) (lo : ℕ) (rs : List Range) (i j : ℕ) (q r : Range)
    → Packable codes lo rs
    → get_elem? rs i ≡ some q
    → get_elem? rs j ≡ some r
    → i < j
    → q.stop ≤ r.start
unfolding Packable
Packable-order codes lo [] i j q r p h k l = absurd (ground arith)
Packable-order codes lo (x ∷ rs) i zero q r p h k l = absurd (omega arith)
Packable-order codes lo (x ∷ rs) zero (suc j) q r (a, b, c, d, e, f, rest) h k l =
    let same : x ≡ q = ground arith in
    let (after, _, _, _, _, _) = Packable-at codes x.stop rs j r rest k in
    subst (λ y. y.stop ≤ r.start) {x = x} {y = q} same after
Packable-order codes lo (x ∷ rs) (suc i) (suc j) q r (a, b, c, d, e, f, rest) h k l =
    Packable-order codes x.stop rs i j q r rest h k (omega arith)

pub get_elem?-some :
    {A : Type 0} (xs : List A) (i : ℕ) → i < length xs → (x : A) × (get_elem? xs i ≡ some x)
get_elem?-some [] i h = absurd (omega arith)
get_elem?-some (x ∷ xs) zero h = (x, refl)
get_elem?-some (x ∷ xs) (suc i) h = get_elem?-some xs i (omega arith)

pub get_elem?-lt :
    {A : Type 0} (xs : List A) (i : ℕ) (x : A) → get_elem? xs i ≡ some x → i < length xs
get_elem?-lt [] i x h = absurd (ground arith)
get_elem?-lt (y ∷ xs) zero x h = omega arith
get_elem?-lt (y ∷ xs) (suc i) x h = omega (arith, get_elem?-lt xs i x h)

-- The range that holds an address, in a list of ranges.
abbrev pub in_range : ℕ → Range → Bool
in_range key r = leb r.start key && ltb key r.stop

abbrev pub find_range : List Range → ℕ → Option Range
find_range rs key = find (in_range key) rs

pub find-at :
    {A : Type 0} (p : A → Bool) (xs : List A) (x : A)
    → find p xs ≡ some x
    → (i : ℕ) × (get_elem? xs i ≡ some x)
find-at p [] x h = absurd (ground arith)
find-at p (y ∷ xs) x h = elim (Bool-cases (p y)) [
  | inl hit ↦ (0, ground arith)
  | inr miss ↦ let (i, at) = find-at p xs x (ground arith) in (suc i, at)
]

pub find-none-at :
    {A : Type 0} (p : A → Bool) (xs : List A) (i : ℕ) (x : A)
    → find p xs ≡ none
    → get_elem? xs i ≡ some x
    → p x ≡ false
find-none-at p [] i x h k = absurd (ground arith)
find-none-at p (y ∷ xs) zero x h k = ground arith
find-none-at p (y ∷ xs) (suc i) x h k = find-none-at p xs i x (ground arith) k
