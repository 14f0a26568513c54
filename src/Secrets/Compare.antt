-- ===== src/Secrets/Compare.antt =====
-- The comparison in constant time (src/secrets.rs) is equality.
use Prim.Native.Nat.{bit_or, bit_xor}
use recomp_net_server.Common.{ℕ, ◌≡◌, ◌↔◌, refl, sym, ap₂, [], ◌∷◌, true, nat_eq, length, arith}
use recomp_net_server.Common.Text.{Text}
use recomp_net_server.Common.Bits.{bit_or-zero, bit_xor-zero, bit_or-zeros}
use recomp_net_server.Secrets.{differences, ct_eq}

differences-same : (a : Text) → differences 0 a a ≡ 0
unfolding differences
differences-same [] = refl
differences-same (x ∷ a) =
    let (_, back) = bit_xor-zero x x in rw (back refl, bit_or-zeros) (differences-same a)

differences-zero :
    (acc : ℕ) (a b : Text) → length a ≡ length b → differences acc a b ≡ 0 → (acc ≡ 0) × (a ≡ b)
unfolding differences
differences-zero acc [] [] h e = (e, refl)
differences-zero acc [] (y ∷ b) h e = absurd (omega arith)
differences-zero acc (x ∷ a) [] h e = absurd (omega arith)
differences-zero acc (x ∷ a) (y ∷ b) h e =
    let (both, rest) = differences-zero (bit_or acc (bit_xor x y)) a b (omega arith) e in
    let (none', xor) = bit_or-zero acc (bit_xor x y) both in
    let (same, _) = bit_xor-zero x y in (none', ap₂ (λ u v. u ∷ v) (same xor) rest)

-- The comparison that folds the differences of all the bytes says that two strings are the same exactly
-- when they are.
pub ct_eq_iff : (a b : Text) → (ct_eq a b ≡ true) ↔ (a ≡ b)
unfolding ct_eq
ct_eq_iff a b = (there, back)
  where
    there : ct_eq a b ≡ true → a ≡ b
    there h = let (_, same) = differences-zero 0 a b (ground arith) (ground arith) in same

    back : a ≡ b → ct_eq a b ≡ true
    back e = let none' = differences-same a in rw (sym e) (ground (arith, none'))
