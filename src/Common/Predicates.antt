-- ===== src/Common/Predicates.antt =====
-- Predicates on lists, and what the list operations do to them.
use mathlib.Core.Path.{◌≡◌, refl, sym, ◌∙◌}
use mathlib.Core.Logic.{◌≢◌, inl, inr}
use mathlib.Core.Bool.{Bool, true, false, ◌||◌}
use mathlib.Core.Option.{some}
use mathlib.Core.List.{List, [], ◌∷◌, ◌++◌, map}
use native.Mathlib.Omega.{arith}
use recomp_net_server.Common.Tests.{Bool-cases}
use recomp_net_server.Common.Lists.{retain, update_first, any, all, find}

abbrev pub All {ℓ κ} : {A : Type ℓ} → (A → Type κ) → List A → Type κ
All P [] = Unit
All P (x ∷ xs) = P x × All P xs

-- No two entries of the list agree on `f`.
abbrev pub Distinct {ℓ κ} : {A : Type ℓ} {B : Type κ} → (A → B) → List A → Type κ
Distinct f [] = Unit
Distinct f (x ∷ xs) = All (λ y. f y ≢ f x) xs × Distinct f xs

module _ {ℓ κ} {A : Type ℓ} (P : A → Type κ) where
  pub All-append : (xs ys : List A) → All P xs → All P ys → All P (xs ++ ys)
  All-append [] ys h k = k
  All-append (x ∷ xs) ys h k = (h.0, All-append xs ys h.1 k)

  pub All-retain : (p : A → Bool) (xs : List A) → All P xs → All P (retain p xs)
  All-retain p [] h = tt
  All-retain p (x ∷ xs) h = ground (arith, All-retain p xs h.1)

  pub All-find : (p : A → Bool) (xs : List A) (x : A) → All P xs → find p xs ≡ some x → P x
  All-find p [] x h e = absurd (ground arith)
  All-find p (y ∷ xs) x h e = ground (arith, All-find p xs x h.1)

  pub All-update_first :
      (p : A → Bool) (f : A → A) (xs : List A)
      → ((x : A) → P x → P (f x))
      → All P xs
      → All P (update_first p f xs)
  All-update_first p f [] k h = tt
  All-update_first p f (x ∷ xs) k h = ground (arith, All-update_first p f xs k h.1, k x h.0)

  pub All-map : (f : A → A) (xs : List A) → ((x : A) → P x → P (f x)) → All P xs → All P (map f xs)
  All-map f [] k h = tt
  All-map f (x ∷ xs) k h = (k x h.0, All-map f xs k h.1)

  pub All-imp {μ} : (Q : A → Type μ) (xs : List A) → ((x : A) → P x → Q x) → All P xs → All Q xs
  All-imp Q [] k h = tt
  All-imp Q (x ∷ xs) k h = (k x h.0, All-imp Q xs k h.1)

-- With two predicates, for a map that changes what they speak of.
pub All-map-imp {ℓ κ μ} :
    {A : Type ℓ} (P : A → Type κ) (Q : A → Type μ) (f : A → A) (xs : List A)
    → ((x : A) → P x → Q (f x))
    → All P xs
    → All Q (map f xs)
All-map-imp P Q f [] k h = tt
All-map-imp P Q f (x ∷ xs) k h = (k x h.0, All-map-imp P Q f xs k h.1)

-- A Boolean check that every entry passes.
module _ {ℓ} {A : Type ℓ} where
  pub All-of_all : (p : A → Bool) (xs : List A) → all p xs ≡ true → All (λ x. p x ≡ true) xs
  All-of_all p [] h = tt
  All-of_all p (x ∷ xs) h = ground (arith, All-of_all p xs)

  pub all-of_All : (p : A → Bool) (xs : List A) → All (λ x. p x ≡ true) xs → all p xs ≡ true
  all-of_All p [] h = refl
  all-of_All p (x ∷ xs) h = ground (arith, all-of_All p xs h.1)

  pub All-of_not_any : (p : A → Bool) (xs : List A) → any p xs ≡ false → All (λ x. p x ≡ false) xs
  All-of_not_any p [] h = tt
  All-of_not_any p (x ∷ xs) h = ground (arith, All-of_not_any p xs)

  pub any-append : (p : A → Bool) (xs ys : List A) → any p (xs ++ ys) ≡ (any p xs || any p ys)
  any-append p [] ys = refl
  any-append p (x ∷ xs) ys = ground (arith, any-append p xs ys)

  -- A filter that keeps every hit of `p` keeps whether there is one.
  pub any-retain :
      (p q : A → Bool) (xs : List A)
      → ((x : A) → p x ≡ true → q x ≡ true)
      → any p (retain q xs) ≡ any p xs
  any-retain p q [] k = refl
  any-retain p q (x ∷ xs) k = ground (arith, any-retain p q xs k, k x)

  pub any-map :
      (p : A → Bool) (f : A → A) (xs : List A)
      → ((x : A) → p (f x) ≡ p x)
      → any p (map f xs) ≡ any p xs
  any-map p f [] k = refl
  any-map p f (x ∷ xs) k = ground (arith, any-map p f xs k, k x)

  pub any-update_first :
      (p q : A → Bool) (f : A → A) (xs : List A)
      → ((x : A) → p (f x) ≡ p x)
      → any p (update_first q f xs) ≡ any p xs
  any-update_first p q f [] k = refl
  any-update_first p q f (x ∷ xs) k = ground (arith, any-update_first p q f xs k, k x)

module _ {ℓ κ} {A : Type ℓ} {B : Type κ} (f : A → B) where
  -- A change that leaves `f` alone.
  pub map-update_first :
      (p : A → Bool) (g : A → A) (xs : List A)
      → ((x : A) → f (g x) ≡ f x)
      → map f (update_first p g xs) ≡ map f xs
  map-update_first p g [] k = refl
  map-update_first p g (x ∷ xs) k = ground (arith, map-update_first p g xs k, k x)

  pub Distinct-update_first :
      (p : A → Bool) (g : A → A) (xs : List A)
      → ((x : A) → f (g x) ≡ f x)
      → Distinct f xs
      → Distinct f (update_first p g xs)
  Distinct-update_first p g [] k d = tt
  Distinct-update_first p g (x ∷ xs) k d = elim (Bool-cases (p x)) [
    | inl e ↦
        rw e (All-imp (λ y. f y ≢ f x) (λ y. f y ≢ f (g x)) xs (λ y h e. h (e ∙ k x)) d.0, d.1)
    | inr e ↦ rw e (
      All-update_first (λ y. f y ≢ f x) p g xs (λ y h e. h (sym (k y) ∙ e)) d.0,
      Distinct-update_first p g xs k d.1,
    )
  ]

  pub Distinct-map :
      (g : A → A) (xs : List A) → ((x : A) → f (g x) ≡ f x) → Distinct f xs → Distinct f (map g xs)
  Distinct-map g [] k d = tt
  Distinct-map g (x ∷ xs) k d = (
    All-map-imp (λ y. f y ≢ f x) (λ y. f y ≢ f (g x)) g xs (λ y h e. h (sym (k y) ∙ e ∙ k x)) d.0,
    Distinct-map g xs k d.1,
  )

  pub Distinct-snoc :
      (xs : List A) (x : A) → Distinct f xs → All (λ y. f y ≢ f x) xs → Distinct f (xs ++ x ∷ [])
  Distinct-snoc [] x d h = (tt, tt)
  Distinct-snoc (y ∷ xs) x d h =
      (All-append _ xs (x ∷ []) d.0 ((λ e. h.0 (sym e)), tt), Distinct-snoc xs x d.1 h.1)

  pub Distinct-retain : (p : A → Bool) (xs : List A) → Distinct f xs → Distinct f (retain p xs)
  Distinct-retain p [] d = tt
  Distinct-retain p (x ∷ xs) d = ground (arith, Distinct-retain p xs d.1, All-retain _ p xs d.0)

  -- Two hits that agree on `f` are one entry.
  pub Distinct-find :
      (p q : A → Bool) (xs : List A) (x y : A)
      → Distinct f xs
      → find p xs ≡ some x
      → find q xs ≡ some y
      → f x ≡ f y
      → x ≡ y
  Distinct-find p q [] x y d hx hy e = absurd (ground arith)
  Distinct-find p q (z ∷ xs) x y d hx hy e = ground (
    arith,
    All-find (λ y. f y ≢ f z) p xs x d.0,
    All-find (λ y. f y ≢ f z) q xs y d.0,
    Distinct-find p q xs x y d.1,
  )
