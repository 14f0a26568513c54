-- ===== src/Common/Bytes.antt =====
-- Byte slices as lists of numbers: indexing, ranges and little-endian integers. A read out of bounds
-- is a panic in Rust and `none` here.
use Prim.Native.Nat.{ℕ, zero, suc, ◌+◌, ◌-◌, ◌*◌, ◌/◌, ◌%◌, ◌≤◌, ◌<◌}
use mathlib.Core.Path.{◌≡◌, refl, ap, ◌∙◌}
use mathlib.Core.Bool.{true}
use mathlib.Core.Option.{Option, none, some}
use mathlib.Core.List.{List, [], ◌∷◌, ◌++◌}
use native.Mathlib.Omega.{arith}
use recomp_net_server.Common.Tests.{if◌then◌else◌, leb}
use recomp_net_server.Common.Lists.{length, length-append}
use recomp_net_server.Common.Text.{take}

abbrev pub Bytes : Type 0
Bytes = List ℕ

abbrev pub drop {ℓ} : {A : Type ℓ} → ℕ → List A → List A
drop zero xs = xs
drop (suc n) [] = []
drop (suc n) (x ∷ xs) = drop n xs

-- `&b[from..to]`, which panics unless `from <= to <= b.len()`.
unfoldable pub slice : Bytes → (from to : ℕ) → Option Bytes
slice b from to =
    if leb from to
    then (if leb to (length b) then some (take (to - from) (drop from b)) else none)
    else none

-- `u16::from_le_bytes`, `u32::from_le_bytes` and `u64::from_le_bytes`
unfoldable pub from_le_bytes : Bytes → ℕ
from_le_bytes [] = 0
from_le_bytes (b ∷ bs) = b + 256 * from_le_bytes bs

-- `struct.pack` with a little-endian code of `n` bytes, and `to_le_bytes`
unfoldable pub to_le_bytes : (n v : ℕ) → Bytes
to_le_bytes zero v = []
to_le_bytes (suc n) v = v % 256 ∷ to_le_bytes n (v / 256)

-- The number a little-endian field of `n` bytes has room for.
abbrev pub room : ℕ → ℕ
room zero = 1
room (suc n) = 256 * room n

pub length-to_le_bytes : (n v : ℕ) → length (to_le_bytes n v) ≡ n
unfolding to_le_bytes
length-to_le_bytes zero v = refl
length-to_le_bytes (suc n) v = ap suc (length-to_le_bytes n (v / 256))

pub from_le_bytes-to_le_bytes : (n v : ℕ) → v < room n → from_le_bytes (to_le_bytes n v) ≡ v
unfolding from_le_bytes to_le_bytes
from_le_bytes-to_le_bytes zero v h = omega arith
from_le_bytes-to_le_bytes (suc n) v h =
    let rest = from_le_bytes-to_le_bytes n (v / 256) (omega arith) in omega (arith, rest)

module _ {ℓ} {A : Type ℓ} where
  pub take_of_append : (xs ys : List A) → take (length xs) (xs ++ ys) ≡ xs
  take_of_append [] ys = refl
  take_of_append (x ∷ xs) ys = ap (λ l. x ∷ l) (take_of_append xs ys)

  pub drop_of_append : (xs ys : List A) → drop (length xs) (xs ++ ys) ≡ ys
  drop_of_append [] ys = refl
  drop_of_append (x ∷ xs) ys = drop_of_append xs ys

  pub length-drop : (n : ℕ) (xs : List A) → length (drop n xs) ≡ length xs - n
  length-drop zero xs = omega arith
  length-drop (suc n) [] = omega arith
  length-drop (suc n) (x ∷ xs) = omega (arith, length-drop n xs)

  pub length-take : (n : ℕ) (xs : List A) → n ≤ length xs → length (take n xs) ≡ n
  length-take zero xs h = refl
  length-take (suc n) [] h = absurd (omega arith)
  length-take (suc n) (x ∷ xs) h = ap suc (length-take n xs (omega arith))

  pub append_assoc : (xs ys zs : List A) → (xs ++ ys) ++ zs ≡ xs ++ (ys ++ zs)
  append_assoc [] ys zs = refl
  append_assoc (x ∷ xs) ys zs = ap (λ l. x ∷ l) (append_assoc xs ys zs)

-- A slice inside the bytes is taken, and has the length asked for.
pub slice-some :
    (b : Bytes) (from to : ℕ)
    → from ≤ to
    → to ≤ length b
    → (s : Bytes) × (slice b from to ≡ some s) × (length s ≡ to - from)
unfolding slice
slice-some b from to h k = (
  take (to - from) (drop from b),
  ground arith,
  length-take (to - from) (drop from b) (omega (arith, length-drop from b)),
)

-- The slice of the middle part of three.
pub slice-append :
    (xs ys zs : Bytes) (from to : ℕ)
    → from ≡ length xs
    → to ≡ length xs + length ys
    → slice (xs ++ (ys ++ zs)) from to ≡ some ys
unfolding slice
slice-append xs ys zs from to f t =
    let le : leb from to ≡ true = ground (arith) in
    let fits : leb to (length (xs ++ (ys ++ zs))) ≡ true =
      ground (arith, length-append xs (ys ++ zs), length-append ys zs) in
    let n : to - from ≡ length ys = omega arith in
    rw (le, fits, n, f, drop_of_append xs (ys ++ zs), take_of_append ys zs) refl

suc_add : (m n : ℕ) → suc m + n ≡ suc (m + n)
suc_add m n = omega arith

module _ {ℓ} {A : Type ℓ} where
  drop-append : (xs ys : List A) (n : ℕ) → drop (length xs + n) (xs ++ ys) ≡ drop n ys
  drop-append [] ys n = ap (λ k. drop k ys) (omega arith)
  drop-append (x ∷ xs) ys n =
      ap (λ k. drop k (x ∷ (xs ++ ys))) (suc_add (length xs) n) ∙ drop-append xs ys n

-- A slice behind a prefix is a slice of the rest.
pub slice-behind :
    (xs b : Bytes) (from to from' to' : ℕ)
    → from ≡ length xs + from'
    → to ≡ length xs + to'
    → slice (xs ++ b) from to ≡ slice b from' to'
unfolding slice
slice-behind xs b from to from' to' f t =
    let le : leb from to ≡ leb from' to' = ground arith in
    let fits : leb to (length (xs ++ b)) ≡ leb to' (length b) =
      ground (arith, length-append xs b) in
    let n : to - from ≡ to' - from' = omega arith in
    rw (le, fits, n, f, drop-append xs b from') refl

take_all {ℓ} : {A : Type ℓ} (xs : List A) → take (length xs) xs ≡ xs
take_all [] = refl
take_all (x ∷ xs) = ap (λ l. x ∷ l) (take_all xs)

pub slice_all : (b : Bytes) (n : ℕ) → n ≡ length b → slice b 0 n ≡ some b
unfolding slice
slice_all b n h =
    let fits : leb n (length b) ≡ true = ground arith in
    let le : leb 0 n ≡ true = ground arith in
    let all : n - 0 ≡ length b = omega arith in rw (le, fits, all) (ap some (take_all b))
