-- ===== src/Geo/Reads.antt =====
-- The reads of the country table stay in bounds (src/ip_country.rs).
use mathlib.Core.Option.{map as map_option}
use recomp_net_server.Common.{
  ℕ, suc, ◌+◌, ◌-◌, ◌*◌, ◌/◌, ◌≤◌, ◌≡◌, ◌^◌, ◌⊎◌, refl, inl, inr, none, some, true, ◌&&◌, ltb, leb,
  ◌==◌, nat_eq, arith, Bool-cases, Option-cases, length,
}
use recomp_net_server.Common.Options.{Returns}
use recomp_net_server.Common.Text.{take, text_beq}
use recomp_net_server.Common.Bytes.{Bytes, drop, slice, slice-some, from_le_bytes}
use recomp_net_server.Geo.{
  Table, magic, hdr, read_le, u16le, u32le, u64le, table, code, lookup_v4, lookup_v6, IpAddr,
  lookup_in, lookup, to_ipv4_mapped, from_utf8, to_ascii_uppercase,
}
use recomp_net_server.Geo.Search.{partition_point_total}

-- What the parser grants: each part is as long as its count says.
unfoldable pub IsValid : Table → Type 0
IsValid t = (length t.v4 ≡ t.v4_count * 10) × (length t.v6 ≡ t.v6_count * 18)

-- The number at `o`, when it is there.
unfoldable pub value : (n : ℕ) → Bytes → ℕ → ℕ
value n b o = from_le_bytes (take (o + n - o) (drop o b))

pub read_le-value :
    (n : ℕ) (b : Bytes) (o : ℕ) → o + n ≤ length b → read_le n b o ≡ some (value n b o)
unfolding read_le value slice
read_le-value n b o h =
    let le : leb o (o + n) ≡ true = ground arith in
    let fits : leb (o + n) (length b) ≡ true = ground arith in rw (le, fits) refl

pub read_le_total : (n : ℕ) (b : Bytes) (o : ℕ) → o + n ≤ length b → Returns (read_le n b o)
read_le_total n b o h = (value n b o, read_le-value n b o h)

pub code_total : (t : Table) (idx : ℕ) → Returns (code t idx)
unfolding code
code_total t idx = elim (Bool-cases (ltb (length t.codes) (idx * 2 + 2))) [
  | inl out ↦ (none, rw out refl)
  | inr fits ↦
      let (s, e, _) = slice-some t.codes (idx * 2) (idx * 2 + 2) (omega arith) (ground arith) in
      (map_option to_ascii_uppercase (from_utf8 s), rw (fits, e) refl)
]

pub lookup_v4_total :
    (t : Table) (key : ℕ) → length t.v4 ≡ t.v4_count * 10 → Returns (lookup_v4 t key)
unfolding lookup_v4 u32le u16le
lookup_v4_total t key h =
    let (m, e, b) =
      partition_point_total (λ mid. u32le t.v4 (mid * 10)) key (suc t.v4_count) 0 t.v4_count
        (omega arith) (omega arith) (λ i k. read_le_total 4 t.v4 (i * 10) (omega arith)) in
    (elim (Bool-cases (m == 0)) [
      | inl first ↦ (none, rw (e, first) refl)
      | inr later ↦
          let (s, es) = read_le_total 4 t.v4 ((m - 1) * 10) (ground arith) in
          let (f, ef) = read_le_total 4 t.v4 ((m - 1) * 10 + 4) (ground arith) in
          let (c, ec) = read_le_total 2 t.v4 ((m - 1) * 10 + 8) (ground arith) in
          (elim (Bool-cases (leb s key && ltb key f)) [
            | inl held ↦ let (a, ea) = code_total t c in (a, rw (e, later, es, ef, held, ec) ea)
            | inr apart ↦ (none, rw (e, later, es, ef, apart) refl)
          ])
    ])

pub lookup_v6_total :
    (t : Table) (key : ℕ) → length t.v6 ≡ t.v6_count * 18 → Returns (lookup_v6 t key)
unfolding lookup_v6 u64le u16le
lookup_v6_total t key h =
    let (m, e, b) =
      partition_point_total (λ mid. u64le t.v6 (mid * 18)) key (suc t.v6_count) 0 t.v6_count
        (omega arith) (omega arith) (λ i k. read_le_total 8 t.v6 (i * 18) (omega arith)) in
    (elim (Bool-cases (m == 0)) [
      | inl first ↦ (none, rw (e, first) refl)
      | inr later ↦
          let (s, es) = read_le_total 8 t.v6 ((m - 1) * 18) (ground arith) in
          let (f, ef) = read_le_total 8 t.v6 ((m - 1) * 18 + 8) (ground arith) in
          let (c, ec) = read_le_total 2 t.v6 ((m - 1) * 18 + 16) (ground arith) in
          (elim (Bool-cases (leb s key && leb key f)) [
            | inl held ↦ let (a, ea) = code_total t c in (a, rw (e, later, es, ef, held, ec) ea)
            | inr apart ↦ (none, rw (e, later, es, ef, apart) refl)
          ])
    ])

-- Parsing any blob returns; a table it grants has parts of the counted length.
pub table_total :
    (blob : Bytes)
    → (table blob ≡ some none) ⊎ ((t : Table) × (table blob ≡ some (some t)) × IsValid t)
unfolding table u32le u16le IsValid
table_total blob = elim (Bool-cases (ltb (length blob) hdr)) [
  | inl short ↦ inl (rw short refl)
  | inr long ↦
      let (found, ef, _) = slice-some blob 0 8 (omega arith) (ground arith) in
      let (n4, e4) = read_le_total 4 blob 8 (ground arith) in
      let (n6, e6) = read_le_total 4 blob 12 (ground arith) in
      let (cc, ec) = read_le_total 2 blob 16 (ground arith) in
      (elim (Bool-cases (text_beq found magic)) [
        | inr other ↦ inl (rw (long, ef, other) refl)
        | inl same ↦ (elim (Bool-cases (ltb (length blob) (hdr + cc * 2 + n4 * 10 + n6 * 18))) [
          | inl cut ↦ inl (rw (long, ef, same, e4, e6, ec, cut) refl)
          | inr whole ↦
              let (codes, e1, l1) =
                slice-some blob hdr (hdr + cc * 2) (omega arith) (ground arith) in
              let (v4, e2, l2) =
                slice-some blob (hdr + cc * 2) (hdr + cc * 2 + n4 * 10) (omega arith)
                  (ground arith) in
              let (v6, e3, l3) =
                slice-some blob (hdr + cc * 2 + n4 * 10) (hdr + cc * 2 + n4 * 10 + n6 * 18)
                  (omega arith) (ground arith) in
              inr (
                record { codes = codes; v4 = v4; v6 = v6; v4_count = n4; v6_count = n6 },
                rw (long, ef, same, e4, e6, ec, whole, e1, e2, e3) refl,
                (omega (arith, l2), omega (arith, l3)),
              )
        ])
      ])
]

pub lookup_in_total : (t : Table) (addr : IpAddr) → IsValid t → Returns (lookup_in t addr)
unfolding IsValid
lookup_in_total t (IpAddr.v4 a) (h4, h6) = lookup_v4_total t a h4
lookup_in_total t (IpAddr.v6 a) (h4, h6) = elim (Option-cases (to_ipv4_mapped a)) [
  | inl plain ↦ let (r, e) = lookup_v6_total t (a / 2 ^ 64) h6 in (r, rw (lookup_in, plain) e)
  | inr (m, mapped) ↦ let (r, e) = lookup_v4_total t m h4 in (r, rw (lookup_in, mapped) e)
]

-- Whatever bytes the binary embeds and whatever the address, the lookup returns: no index and no slice
-- leaves its bounds, and neither search loops.
pub lookup_total : (blob : Bytes) (addr : IpAddr) → Returns (lookup blob addr)
unfolding lookup
lookup_total blob addr = elim (table_total blob) [
  | inl none' ↦ (none, rw none' refl)
  | inr (t, e, h) ↦ let (r, v) = lookup_in_total t addr h in (r, rw e v)
]
