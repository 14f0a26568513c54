-- ===== src/Geo/RoundTrip.antt =====
-- What tools/gen_ip_country.py writes, src/ip_country.rs reads back.
use recomp_net_server.Common.{
  ℕ, ◌+◌, ◌*◌, ◌<◌, ◌≡◌, refl, ◌∙◌, ap₂, some, List, [], ◌++◌, false, ltb, arith, length,
  length-append,
}
use recomp_net_server.Common.Bytes.{
  Bytes, slice, to_le_bytes, room, length-to_le_bytes, slice-append, slice-behind, slice_all,
}
use recomp_net_server.Geo.{Table, magic, hdr, u16le, u32le, table}
use recomp_net_server.Geo.Generator.{
  Cc, Range, encode, packed, pack_v4, pack_v6, parts, write, length-packed, length-pack_v4,
  length-pack_v6, read_le-packed, read_le-behind,
}

module _ (codes : List Cc) (v4 v6 : List Range) where
  -- The table that the written file stands for.
  unfoldable pub written : Table
  written = record {
    codes = packed encode codes;
    v4 = packed (pack_v4 codes) v4;
    v6 = packed (pack_v6 codes) v6;
    v4_count = length v4;
    v6_count = length v6;
  }

  pub length-codes : length (packed encode codes) ≡ length codes * 2
  length-codes = length-packed encode 2 codes (λ c. refl)

  pub length-v4 : length (packed (pack_v4 codes) v4) ≡ length v4 * 10
  length-v4 = length-packed (pack_v4 codes) 10 v4 (length-pack_v4 codes)

  pub length-v6 : length (packed (pack_v6 codes) v6) ≡ length v6 * 18
  length-v6 = length-packed (pack_v6 codes) 18 v6 (length-pack_v6 codes)

  c4 : Bytes
  c4 = to_le_bytes 4 (length v4)

  c6 : Bytes
  c6 = to_le_bytes 4 (length v6)

  cc : Bytes
  cc = to_le_bytes 2 (length codes)

  slice-write :
      (f t : ℕ) → slice (write codes v4 v6) (18 + f) (18 + t) ≡ slice (parts codes v4 v6) f t
  unfolding write c4 c6 cc
  slice-write f t =
      slice-behind magic (c4 ++ (c6 ++ (cc ++ parts codes v4 v6))) (18 + f) (18 + t) (10 + f)
        (10 + t) (omega arith) (omega arith)
      ∙ slice-behind c4 (c6 ++ (cc ++ parts codes v4 v6)) (10 + f) (10 + t) (6 + f) (6 + t)
          (omega (arith, length-to_le_bytes 4 (length v4)))
          (omega (arith, length-to_le_bytes 4 (length v4)))
      ∙ slice-behind c6 (cc ++ parts codes v4 v6) (6 + f) (6 + t) (2 + f) (2 + t)
          (omega (arith, length-to_le_bytes 4 (length v6)))
          (omega (arith, length-to_le_bytes 4 (length v6)))
      ∙ slice-behind cc (parts codes v4 v6) (2 + f) (2 + t) f t
          (omega (arith, length-to_le_bytes 2 (length codes)))
          (omega (arith, length-to_le_bytes 2 (length codes)))

  -- The parts, cut where the reader cuts them.
  slice-codes : slice (parts codes v4 v6) 0 (length codes * 2) ≡ some (packed encode codes)
  unfolding parts
  slice-codes =
      slice-append [] (packed encode codes) (packed (pack_v4 codes) v4 ++ packed (pack_v6 codes) v6)
        0 (length codes * 2) refl (omega (arith, length-codes))

  slice-v4 :
      slice (parts codes v4 v6) (length codes * 2) (length codes * 2 + length v4 * 10)
      ≡ some (packed (pack_v4 codes) v4)
  unfolding parts
  slice-v4 =
      slice-append (packed encode codes) (packed (pack_v4 codes) v4) (packed (pack_v6 codes) v6)
        (length codes * 2) (length codes * 2 + length v4 * 10) (omega (arith, length-codes))
        (omega (arith, length-codes, length-v4))

  slice-v6 :
      slice
        (parts codes v4 v6)
        (length codes * 2 + length v4 * 10)
        (length codes * 2 + length v4 * 10 + length v6 * 18)
      ≡ some (packed (pack_v6 codes) v6)
  unfolding parts
  slice-v6 =
      slice-behind (packed encode codes) (packed (pack_v4 codes) v4 ++ packed (pack_v6 codes) v6)
        (length codes * 2 + length v4 * 10) (length codes * 2 + length v4 * 10 + length v6 * 18)
        (length v4 * 10) (length v4 * 10 + length v6 * 18) (omega (arith, length-codes))
        (omega (arith, length-codes))
      ∙ slice-behind (packed (pack_v4 codes) v4) (packed (pack_v6 codes) v6) (length v4 * 10)
          (length v4 * 10 + length v6 * 18) 0 (length v6 * 18) (omega (arith, length-v4))
          (omega (arith, length-v4))
      ∙ slice_all (packed (pack_v6 codes) v6) (length v6 * 18) (omega (arith, length-v6))

  length-write :
      length (write codes v4 v6) ≡ 18 + (length codes * 2 + length v4 * 10 + length v6 * 18)
  unfolding write parts
  length-write = omega (
    arith,
    length-append magic (
        to_le_bytes 4 (length v4)
        ++ (to_le_bytes 4 (length v6) ++ (to_le_bytes 2 (length codes) ++ parts codes v4 v6))),
    length-append (to_le_bytes 4 (length v4))
        (to_le_bytes 4 (length v6) ++ (to_le_bytes 2 (length codes) ++ parts codes v4 v6)),
    length-append (to_le_bytes 4 (length v6)) (to_le_bytes 2 (length codes) ++ parts codes v4 v6),
    length-append (to_le_bytes 2 (length codes)) (parts codes v4 v6),
    length-append (packed encode codes) (packed (pack_v4 codes) v4 ++ packed (pack_v6 codes) v6),
    length-append (packed (pack_v4 codes) v4) (packed (pack_v6 codes) v6),
    length-to_le_bytes 4 (length v4),
    length-to_le_bytes 4 (length v6),
    length-to_le_bytes 2 (length codes),
    length-codes,
    length-v4,
    length-v6,
  )

  module _ (n4 : length v4 < room 4) (n6 : length v6 < room 4) (nc : length codes < room 2) where
    count-v4 : u32le (write codes v4 v6) 8 ≡ some (length v4)
    unfolding write u32le
    count-v4 = read_le-behind 4 magic _ 8 0 (omega arith) ∙ read_le-packed 4 (length v4) _ n4

    count-v6 : u32le (write codes v4 v6) 12 ≡ some (length v6)
    unfolding write u32le
    count-v6 =
        read_le-behind 4 magic _ 12 4 (omega arith)
        ∙ read_le-behind 4 (to_le_bytes 4 (length v4)) _ 4 0
            (omega (arith, length-to_le_bytes 4 (length v4)))
        ∙ read_le-packed 4 (length v6) _ n6

    count-codes : u16le (write codes v4 v6) 16 ≡ some (length codes)
    unfolding write u16le
    count-codes =
        read_le-behind 2 magic _ 16 8 (omega arith)
        ∙ read_le-behind 2 (to_le_bytes 4 (length v4)) _ 8 4
            (omega (arith, length-to_le_bytes 4 (length v4)))
        ∙ read_le-behind 2 (to_le_bytes 4 (length v6)) _ 4 0
            (omega (arith, length-to_le_bytes 4 (length v6)))
        ∙ read_le-packed 2 (length codes) _ nc

    -- Reading what the generator wrote gives the table that it stands for, when the counts fit their
    -- fields.
    pub table-write : table (write codes v4 v6) ≡ some (some written)
    unfolding table written write
    table-write =
        let long : ltb (length (write codes v4 v6)) hdr ≡ false = ground (arith, length-write) in
        let head : slice (write codes v4 v6) 0 8 ≡ some magic =
          slice-append [] magic _ 0 8 refl (omega arith) in
        let whole : ltb (length (write codes v4 v6))
              (hdr + length codes * 2 + length v4 * 10 + length v6 * 18)
            ≡ false =
          ground (arith, length-write) in
        let s1 : slice (write codes v4 v6) hdr (hdr + length codes * 2)
            ≡ some (packed encode codes) =
          ap₂ (slice (write codes v4 v6)) (omega arith) (omega arith)
          ∙ slice-write 0 (length codes * 2)
          ∙ slice-codes in
        let s2 : slice (write codes v4 v6) (hdr + length codes * 2)
              (hdr + length codes * 2 + length v4 * 10)
            ≡ some (packed (pack_v4 codes) v4) =
          ap₂ (slice (write codes v4 v6)) (omega arith) (omega arith)
          ∙ slice-write (length codes * 2) (length codes * 2 + length v4 * 10)
          ∙ slice-v4 in
        let s3 : slice (write codes v4 v6) (hdr + length codes * 2 + length v4 * 10)
              (hdr + length codes * 2 + length v4 * 10 + length v6 * 18)
            ≡ some (packed (pack_v6 codes) v6) =
          ap₂ (slice (write codes v4 v6)) (omega arith) (omega arith)
          ∙ slice-write (length codes * 2 + length v4 * 10)
              (length codes * 2 + length v4 * 10 + length v6 * 18)
          ∙ slice-v6 in
        rw (long, head, count-v4, count-v6, count-codes, whole, s1, s2, s3) refl
