-- ===== src/Common/Map.antt =====
-- A `HashMap` as an association list with one entry to a key. The order of its entries is the
-- order of insertion; Rust's iteration order is unspecified, and no theorem depends on it.
use mathlib.Core.Path.{◌≡◌, refl}
use mathlib.Core.Option.{Option, none, some}
use mathlib.Core.List.{List, [], ◌∷◌}
use native.Mathlib.Omega.{arith}
use recomp_net_server.Common.Tests.{if◌then◌else◌, PartialEq, ◌==◌, ==_refl}
use recomp_net_server.Common.Predicates.{All}

module _ {ℓ κ} {K : Type ℓ} {V : Type κ} ⦃e : PartialEq K⦄ where
  unfoldable pub get : K → List (K × V) → Option V
  get k [] = none
  get k ((j, v) ∷ m) = if j == k then some v else get k m

  unfoldable pub insert : K → V → List (K × V) → List (K × V)
  insert k v [] = (k, v) ∷ []
  insert k v ((j, w) ∷ m) = if j == k then (k, v) ∷ m else (j, w) ∷ insert k v m

  unfoldable pub remove : K → List (K × V) → List (K × V)
  remove k [] = []
  remove k ((j, w) ∷ m) = if j == k then remove k m else (j, w) ∷ remove k m

  pub get-insert :
      (k j : K) (v : V) (m : List (K × V))
      → get j (insert k v m) ≡ (if k == j then some v else get j m)
  unfolding get insert
  get-insert k j v [] = refl
  get-insert k j v ((i, w) ∷ m) =
      ground (arith, e.equal_iff k j, e.equal_iff i k, e.equal_iff i j, get-insert k j v m)

  pub get-insert_self : (k : K) (v : V) (m : List (K × V)) → get k (insert k v m) ≡ some v
  get-insert_self k v m = ground (arith, get-insert k k v m, ==_refl k)

  pub get-remove :
      (k j : K) (m : List (K × V)) → get j (remove k m) ≡ (if k == j then none else get j m)
  unfolding get remove
  get-remove k j [] = ground arith
  get-remove k j ((i, w) ∷ m) =
      ground (arith, e.equal_iff k j, e.equal_iff i k, e.equal_iff i j, get-remove k j m)

module _ {ℓ κ μ} {K : Type ℓ} {V : Type κ} ⦃e : PartialEq K⦄ (P : V → Type μ) where
  -- A predicate that every value of the map satisfies.
  abbrev pub Values : List (K × V) → Type μ
  Values = All (λ kv. P kv.1)

  pub Values-get : (k : K) (v : V) (m : List (K × V)) → Values m → get k m ≡ some v → P v
  unfolding get
  Values-get k v [] h q = absurd (ground arith)
  Values-get k v ((j, w) ∷ m) h q = ground (arith, Values-get k v m h.1)

  pub Values-insert : (k : K) (v : V) (m : List (K × V)) → Values m → P v → Values (insert k v m)
  unfolding insert
  Values-insert k v [] h p = (p, tt)
  Values-insert k v ((j, w) ∷ m) h p = ground (arith, Values-insert k v m h.1 p)

  pub Values-remove : (k : K) (m : List (K × V)) → Values m → Values (remove k m)
  unfolding remove
  Values-remove k [] h = tt
  Values-remove k ((j, w) ∷ m) h = ground (arith, Values-remove k m h.1)
