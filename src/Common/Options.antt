-- ===== src/Common/Options.antt =====
-- `?` on an `Option`, and the other steps that end at the first `none`.
use mathlib.Core.Path.{◌≡◌, refl}
use mathlib.Core.Option.{Option, none, some}
use native.Mathlib.Omega.{arith}

infixl 5 ◌>>=◌
abbrev pub ◌>>=◌ {κ μ} : {A : Type κ} {B : Type μ} → Option A → (A → Option B) → Option B
none >>= k = none
some a >>= k = k a

-- A run that does not panic.
abbrev pub Returns {ℓ} : {A : Type ℓ} → Option A → Type ℓ
Returns {A = A} o = (a : A) × (o ≡ some a)

pub Returns-bind {κ μ} :
    {A : Type κ} {B : Type μ} (o : Option A) (k : A → Option B)
    → Returns o
    → ((a : A) → o ≡ some a → Returns (k a))
    → Returns (o >>= k)
Returns-bind none k (a, e) h = absurd (ground arith)
Returns-bind (some x) k r h = h x refl
