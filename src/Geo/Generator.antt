-- ===== src/Geo/Generator.antt =====
-- tools/gen_ip_country.py: `main` packs the ranges and their countries into the blob that
-- src/ip_country.rs reads.
use recomp_net_server.Common.{
  ℕ, suc, ◌+◌, ◌-◌, ◌*◌, ◌/◌, ◌^◌, ◌<◌, ◌≡◌, refl, ap, some, List, [], ◌∷◌, ◌++◌, Bool, ◌&&◌, ◌==◌,
  nat_eq, if◌then◌else◌, arith, length, length-append,
}
use recomp_net_server.Common.Options.{◌>>=◌}
use recomp_net_server.Common.Bytes.{
  Bytes, to_le_bytes, from_le_bytes, room, length-to_le_bytes, from_le_bytes-to_le_bytes,
  slice-append, slice-behind,
}
use recomp_net_server.Geo.{magic, read_le}

-- A country code, two letters.
abbrev pub Cc : Type 0
Cc = ℕ × ℕ

abbrev pub cc_eq : Cc → Cc → Bool
cc_eq (a, b) (c, d) = a == c && b == d

-- One line of the delegation files: `[start, stop)` and its country.
pub record Range : Type 0 where
  pub start : ℕ
  pub stop : ℕ
  pub cc : Cc

-- `idx[cc]`
unfoldable pub index_of : List Cc → Cc → ℕ
index_of [] cc = 0
index_of (c ∷ codes) cc = if cc_eq c cc then 0 else suc (index_of codes cc)

-- A loop that appends what `f` packs of each element.
unfoldable pub packed : {A : Type 0} → (A → Bytes) → List A → Bytes
packed f [] = []
packed f (x ∷ xs) = f x ++ packed f xs

-- `struct.pack("<IIH", start, end, idx[cc])`
unfoldable pub pack_v4 : List Cc → Range → Bytes
pack_v4 codes r =
    to_le_bytes 4 r.start ++ (to_le_bytes 4 r.stop ++ to_le_bytes 2 (index_of codes r.cc))

-- `struct.pack("<QQH", start >> 64, (end - 1) >> 64, idx[cc])`
unfoldable pub pack_v6 : List Cc → Range → Bytes
pack_v6 codes r =
    to_le_bytes 8 (r.start / 2 ^ 64)
    ++ (to_le_bytes 8 ((r.stop - 1) / 2 ^ 64) ++ to_le_bytes 2 (index_of codes r.cc))

-- `cc.encode("ascii")`
abbrev pub encode : Cc → Bytes
encode (a, b) = a ∷ b ∷ []

-- What follows the counts.
unfoldable pub parts : List Cc → (v4 v6 : List Range) → Bytes
parts codes v4 v6 = packed encode codes ++ (packed (pack_v4 codes) v4 ++ packed (pack_v6 codes) v6)

-- The file that `main` writes for the country codes and the merged ranges.
unfoldable pub write : List Cc → (v4 v6 : List Range) → Bytes
write codes v4 v6 =
    magic
    ++ (to_le_bytes 4 (length v4)
        ++ (to_le_bytes 4 (length v6) ++ (to_le_bytes 2 (length codes) ++ parts codes v4 v6)))

-- Each packed element has the length `n`.
pub length-packed :
    {A : Type 0} (f : A → Bytes) (n : ℕ) (xs : List A)
    → ((x : A) → length (f x) ≡ n)
    → length (packed f xs) ≡ length xs * n
unfolding packed
length-packed f n [] h = omega arith
length-packed f n (x ∷ xs) h =
    omega (arith, length-append (f x) (packed f xs), h x, length-packed f n xs h)

pub length-pack_v4 : (codes : List Cc) (r : Range) → length (pack_v4 codes r) ≡ 10
unfolding pack_v4
length-pack_v4 codes r =
    let start = to_le_bytes 4 r.start in
    let stop = to_le_bytes 4 r.stop in
    let idx = to_le_bytes 2 (index_of codes r.cc) in
    omega (
      arith,
      length-append start (stop ++ idx),
      length-append stop idx,
      length-to_le_bytes 4 r.start,
      length-to_le_bytes 4 r.stop,
      length-to_le_bytes 2 (index_of codes r.cc),
    )

pub length-pack_v6 : (codes : List Cc) (r : Range) → length (pack_v6 codes r) ≡ 18
unfolding pack_v6
length-pack_v6 codes r =
    let start = to_le_bytes 8 (r.start / 2 ^ 64) in
    let stop = to_le_bytes 8 ((r.stop - 1) / 2 ^ 64) in
    let idx = to_le_bytes 2 (index_of codes r.cc) in
    omega (
      arith,
      length-append start (stop ++ idx),
      length-append stop idx,
      length-to_le_bytes 8 (r.start / 2 ^ 64),
      length-to_le_bytes 8 ((r.stop - 1) / 2 ^ 64),
      length-to_le_bytes 2 (index_of codes r.cc),
    )

-- Reading back a packed field.
pub read_le-packed :
    (n v : ℕ) (zs : Bytes) → v < room n → read_le n (to_le_bytes n v ++ zs) 0 ≡ some v
unfolding read_le
read_le-packed n v zs b =
    let mid =
      slice-append [] (to_le_bytes n v) zs 0 (0 + n) refl (omega (arith, length-to_le_bytes n v)) in
    rw (mid, from_le_bytes-to_le_bytes n v b) refl

pub read_le-behind :
    (n : ℕ) (xs b : Bytes) (o o' : ℕ) → o ≡ length xs + o' → read_le n (xs ++ b) o ≡ read_le n b o'
unfolding read_le
read_le-behind n xs b o o' h =
    ap (λ s. s >>= λ bytes. some (from_le_bytes bytes))
      (slice-behind xs b o (o + n) o' (o' + n) h (omega arith))
