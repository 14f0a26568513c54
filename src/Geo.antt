-- ===== src/Geo.antt =====
-- src/ip_country.rs: the table of IP ranges and countries that is compiled into the binary, and
-- tools/gen_ip_country.py, which writes it. The embedded blob is an argument. A value `none` of type
-- `Option` around a result is a panic: an index or a slice out of bounds.
mod Search
pub mod Reads
pub mod Lookup
pub mod Generator
pub mod RoundTrip
pub mod Country
pub mod Answer
pub mod Reference
pub mod Examples
use mathlib.Core.Option.{map as map_option}
use recomp_net_server.Common.{
  ℕ, zero, suc, ◌+◌, ◌-◌, ◌*◌, ◌/◌, ◌%◌, ◌^◌, ◌≡◌, Option, none, some, List, [], ◌∷◌, ◌++◌, map,
  Bool, true, false, not, ◌&&◌, ◌||◌, ltb, leb, ◌==◌, nat_eq, if◌then◌else◌, length, get_elem?,
}
use recomp_net_server.Common.Options.{◌>>=◌}
use recomp_net_server.Common.Text.{Text, text_beq, within, is_empty}
use recomp_net_server.Common.Bytes.{Bytes, slice, from_le_bytes}

-- b"RCGEO1\0\0"
abbrev pub magic : Bytes
magic = b'R' ∷ b'C' ∷ b'G' ∷ b'E' ∷ b'O' ∷ b'1' ∷ 0 ∷ 0 ∷ []

abbrev pub hdr : ℕ
hdr = 8 + 4 + 4 + 2

abbrev pub v4_entry : ℕ
v4_entry = 4 + 4 + 2

abbrev pub v6_entry : ℕ
v6_entry = 8 + 8 + 2

pub record Table : Type 0 where
  pub codes : Bytes
  pub v4 : Bytes
  pub v6 : Bytes
  pub v4_count : ℕ
  pub v6_count : ℕ

-- A read of `n` bytes at `o`, little-endian.
unfoldable pub read_le : ℕ → Bytes → ℕ → Option ℕ
read_le n b o = do s ← slice b o (o + n); some (from_le_bytes s)

unfoldable pub u16le : Bytes → ℕ → Option ℕ
u16le b o = read_le 2 b o

unfoldable pub u32le : Bytes → ℕ → Option ℕ
u32le b o = read_le 4 b o

unfoldable pub u64le : Bytes → ℕ → Option ℕ
u64le b o = read_le 8 b o

-- The outer option is a panic, the inner one a malformed blob.
unfoldable pub table : Bytes → Option (Option Table)
table blob = if ltb (length blob) hdr then some none else do
  found ← slice blob 0 8
  if not (text_beq found magic) then some none else do
    v4_count ← u32le blob 8
    v6_count ← u32le blob 12
    cc_count ← u16le blob 16
    let codes_end = hdr + cc_count * 2
    let v4_end = codes_end + v4_count * v4_entry
    let v6_end = v4_end + v6_count * v6_entry
    if ltb (length blob) v6_end then some none else do
      codes ← slice blob hdr codes_end
      v4 ← slice blob codes_end v4_end
      v6 ← slice blob v4_end v6_end
      some (
          some
            (record { codes = codes; v4 = v4; v6 = v6; v4_count = v4_count; v6_count = v6_count }))

-- `str::from_utf8` on two bytes: two ASCII characters, or one character of two bytes.
unfoldable pub from_utf8 : Bytes → Option Text
from_utf8 (b ∷ c ∷ []) =
    if ltb b 0x80 && ltb c 0x80
    then some (b ∷ c ∷ [])
    else if within 0xc2 0xdf b && within 0x80 0xbf c
    then some (((b - 0xc0) * 64 + (c - 0x80)) ∷ [])
    else none
from_utf8 _ = none

abbrev upper : ℕ → ℕ
upper c = if within b'a' b'z' c then c - 32 else c

-- `str::to_ascii_uppercase`
unfoldable pub to_ascii_uppercase : Text → Text
to_ascii_uppercase s = map upper s

unfoldable pub code : Table → ℕ → Option (Option Text)
code t idx =
    let o = idx * 2 in
    if ltb (length t.codes) (o + 2)
    then some none
    else do s ← slice t.codes o (o + 2); some (map_option to_ascii_uppercase (from_utf8 s))

-- The loop of both lookups: `start` reads the first address of a record. The loop takes at most
-- `hi - lo` rounds, so more fuel than that does not run out.
unfoldable pub partition_point : (start : ℕ → Option ℕ) (key fuel lo hi : ℕ) → Option ℕ
partition_point start key zero lo hi = none
partition_point start key (suc fuel) lo hi = if not (ltb lo hi) then some lo else do
  let mid = (lo + hi) / 2
  s ← start mid
  let below = leb s key
  partition_point start key fuel (if below then mid + 1 else lo) (if below then hi else mid)

unfoldable pub lookup_v4 : Table → ℕ → Option (Option Text)
lookup_v4 t key = do
  lo ← partition_point (λ mid. u32le t.v4 (mid * v4_entry)) key (suc t.v4_count) 0 t.v4_count
  if lo == 0 then some none else do
    let o = (lo - 1) * v4_entry
    start ← u32le t.v4 o
    end ← u32le t.v4 (o + 4)
    if not (leb start key && ltb key end)
        then some none
        else do idx ← u16le t.v4 (o + 8); code t idx

unfoldable pub lookup_v6 : Table → ℕ → Option (Option Text)
lookup_v6 t key_hi = do
  lo ← partition_point (λ mid. u64le t.v6 (mid * v6_entry)) key_hi (suc t.v6_count) 0 t.v6_count
  if lo == 0 then some none else do
    let o = (lo - 1) * v6_entry
    start ← u64le t.v6 o
    end ← u64le t.v6 (o + 8)
    if not (leb start key_hi && leb key_hi end)
        then some none
        else do idx ← u16le t.v6 (o + 16); code t idx

-- `IpAddr`, an address as its number.
pub data IpAddr : Type 0 where
  v4 : ℕ → IpAddr
  v6 : ℕ → IpAddr

-- `Ipv6Addr::to_ipv4_mapped`: the addresses `::ffff:a.b.c.d`.
unfoldable pub to_ipv4_mapped : ℕ → Option ℕ
to_ipv4_mapped a = if a / 2 ^ 32 == 0xffff then some (a % 2 ^ 32) else none

abbrev pub lookup_in : Table → IpAddr → Option (Option Text)
lookup_in t (IpAddr.v4 a) = lookup_v4 t a
lookup_in t (IpAddr.v6 a) = elim (to_ipv4_mapped a) [
  | some m ↦ lookup_v4 t m
  | none ↦ lookup_v6 t (a / 2 ^ 64)
]

unfoldable pub lookup : Bytes → IpAddr → Option (Option Text)
lookup blob addr = do t ← table blob; elim t [ none ↦ some none | some t ↦ lookup_in t addr ]

unfoldable pub range_counts : Bytes → Option (ℕ × ℕ)
range_counts blob = do
  t ← table blob
  some (elim t [ none ↦ (0, 0) | some t ↦ (t.v4_count, t.v6_count) ])
