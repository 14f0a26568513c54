-- ===== src/Common/Text.antt =====
-- A `str` as the list of its characters' numbers, with the methods of `str` and `char` that the source
-- calls.
use Prim.Native.Nat.{ℕ, zero, suc, ◌+◌}
use Prim.Native.String.{String, [] as nil, ◌∷◌ as ◌∷ₛ◌}
use Prim.Native.Char.{code}
use mathlib.Core.Path.{◌≡◌, refl}
use mathlib.Core.Bool.{Bool, true, false, ◌&&◌, ◌||◌}
use mathlib.Core.List.{List, [], ◌∷◌, map}
use native.Mathlib.Omega.{arith}
use recomp_net_server.Common.Tests.{PartialEq, if◌then◌else◌, ltb, leb, ◌==◌, nat_eq}

abbrev pub Text : Type 0
Text = List ℕ

-- The characters of a literal.
abbrev pub chars : String → Text
chars nil = []
chars (c ∷ₛ s) = code c ∷ chars s

-- `(lo..=hi).contains(&c)`
abbrev pub within : (lo hi : ℕ) → ℕ → Bool
within lo hi c = leb lo c && leb c hi

-- `char::is_whitespace`, the White_Space property of Unicode.
unfoldable pub is_whitespace : ℕ → Bool
is_whitespace c =
    within 0x09 0x0d c
    || c == 0x20
    || c == 0x85
    || c == 0xa0
    || c == 0x1680
    || within 0x2000 0x200a c
    || within 0x2028 0x2029 c
    || c == 0x202f
    || c == 0x205f
    || c == 0x3000

-- `char::is_control`, the category Cc.
unfoldable pub is_control : ℕ → Bool
is_control c = leb c 0x1f || within 0x7f 0x9f c

-- `char::len_utf8`
unfoldable pub len_utf8 : ℕ → ℕ
len_utf8 c = if ltb c 0x80 then 1 else if ltb c 0x800 then 2 else if ltb c 0x1_0000 then 3 else 4

-- `str::len`, in bytes.
unfoldable pub len_bytes : Text → ℕ
len_bytes [] = 0
len_bytes (c ∷ s) = len_utf8 c + len_bytes s

abbrev pub is_empty {ℓ} : {A : Type ℓ} → List A → Bool
is_empty [] = true
is_empty (x ∷ xs) = false

abbrev pub trim_start : Text → Text
trim_start [] = []
trim_start (c ∷ s) = if is_whitespace c then trim_start s else c ∷ s

abbrev pub trim_end : Text → Text
trim_end [] = []
trim_end (c ∷ s) =
    let rest = trim_end s in if is_empty rest && is_whitespace c then [] else c ∷ rest

unfoldable pub trim : Text → Text
trim s = trim_end (trim_start s)

-- `iter().take(n)`
abbrev pub take {ℓ} : {A : Type ℓ} → ℕ → List A → List A
take zero xs = []
take (suc n) [] = []
take (suc n) (x ∷ xs) = x ∷ take n xs

abbrev pub lower : ℕ → ℕ
lower c = if within b'A' b'Z' c then c + 32 else c

-- `str::to_ascii_lowercase`
unfoldable pub to_ascii_lowercase : Text → Text
to_ascii_lowercase s = map lower s

abbrev pub text_beq : Text → Text → Bool
text_beq [] [] = true
text_beq [] (d ∷ t) = false
text_beq (c ∷ s) [] = false
text_beq (c ∷ s) (d ∷ t) = c == d && text_beq s t

pub text_beq_iff : (s t : Text) → (text_beq s t ≡ true → s ≡ t) × (s ≡ t → text_beq s t ≡ true)
text_beq_iff s t = (same s t, other s t)
  where
    same : (s t : Text) → text_beq s t ≡ true → s ≡ t
    same [] [] h = refl
    same [] (d ∷ t) h = absurd (ground arith)
    same (c ∷ s) [] h = absurd (ground arith)
    same (c ∷ s) (d ∷ t) h = ground (arith, same s t)

    other : (s t : Text) → s ≡ t → text_beq s t ≡ true
    other [] [] h = refl
    other [] (d ∷ t) h = absurd (ground arith)
    other (c ∷ s) [] h = absurd (ground arith)
    other (c ∷ s) (d ∷ t) h = ground (arith, other s t)

instance abbrev pub text_eq : PartialEq Text
text_eq = record { equal = text_beq; equal_iff = text_beq_iff }
