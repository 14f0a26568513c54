-- ===== src/Geo/Answer.antt =====
-- The lookup of src/ip_country.rs in the blob that tools/gen_ip_country.py wrote.
use mathlib.Core.Option.{map as map_option}
use recomp_net_server.Common.{
  ℕ, ◌+◌, ◌*◌, ◌≤◌, ◌<◌, ◌≡◌, refl, ◌∙◌, ap, some, List, ◌++◌, true, false, ltb, nat_eq, arith,
  length, get_elem?, find-eq-some, Option-cases, inl, inr,
}
use recomp_net_server.Common.Text.{Text}
use recomp_net_server.Common.Bytes.{Bytes, to_le_bytes, room, length-to_le_bytes, append_assoc}
use recomp_net_server.Geo.{read_le, code, IpAddr, lookup, from_utf8, to_ascii_uppercase}
use recomp_net_server.Geo.Reads.{IsValid, value, read_le-value}
use recomp_net_server.Geo.Lookup.{
  IsDisjoint, holds, scan, scan-some, scan-none, answer, v4_start, v4_stop, v4_code, lookup_v4-scan,
}
use recomp_net_server.Geo.Generator.{
  Cc, Range, encode, index_of, packed, pack_v4, write, length-pack_v4, read_le-packed,
  read_le-behind,
}
use recomp_net_server.Geo.RoundTrip.{written, table-write, length-codes, length-v4, length-v6}
use recomp_net_server.Geo.Country.{
  read_le-at, slice-at, index_of-found, Packable, Packable-at, Packable-order, is_upper, Fits,
  get_elem?-some, get_elem?-lt, in_range, find_range, find-at, find-none-at,
}

-- A field that reads as `v` has the value `v`.
value-read :
    (n : ℕ) (b : Bytes) (o v : ℕ) → o + n ≤ length b → read_le n b o ≡ some v → value n b o ≡ v
value-read n b o v h e = ground (arith, read_le-value n b o h)

module _ (codes : List Cc) (r : Range) where
  pack_v4-append :
      (rest : Bytes)
      → pack_v4 codes r ++ rest
        ≡ to_le_bytes 4 r.start
          ++ (to_le_bytes 4 r.stop ++ (to_le_bytes 2 (index_of codes r.cc) ++ rest))
  unfolding pack_v4
  pack_v4-append rest =
      append_assoc (to_le_bytes 4 r.start)
        (to_le_bytes 4 r.stop ++ to_le_bytes 2 (index_of codes r.cc)) rest
      ∙ ap (λ l. to_le_bytes 4 r.start ++ l)
          (append_assoc (to_le_bytes 4 r.stop) (to_le_bytes 2 (index_of codes r.cc)) rest)

  read-start :
      r.start < room 4 → (rest : Bytes) → read_le 4 (pack_v4 codes r ++ rest) 0 ≡ some r.start
  read-start h rest = rw (pack_v4-append rest) (read_le-packed 4 r.start _ h)

  read-stop : r.stop < room 4 → (rest : Bytes) → read_le 4 (pack_v4 codes r ++ rest) 4 ≡ some r.stop
  read-stop h rest = rw (pack_v4-append rest) (
      read_le-behind 4 (to_le_bytes 4 r.start) _ 4 0 (omega (arith, length-to_le_bytes 4 r.start))
      ∙ read_le-packed 4 r.stop _ h)

  read-index :
      index_of codes r.cc < room 2
      → (rest : Bytes) → read_le 2 (pack_v4 codes r ++ rest) 8 ≡ some (index_of codes r.cc)
  read-index h rest = rw (pack_v4-append rest) (
      read_le-behind 2 (to_le_bytes 4 r.start) _ 8 4 (omega (arith, length-to_le_bytes 4 r.start))
      ∙ read_le-behind 2 (to_le_bytes 4 r.stop) _ 4 0 (omega (arith, length-to_le_bytes 4 r.stop))
      ∙ read_le-packed 2 (index_of codes r.cc) _ h)

-- Two capital letters are read as they are.
letters :
    (c : Cc)
    → is_upper c.0 ≡ true
    → is_upper c.1 ≡ true
    → map_option to_ascii_uppercase (from_utf8 (encode c)) ≡ some (encode c)
unfolding from_utf8 to_ascii_uppercase
letters (a, b) h k = ground arith

abbrev pub country : Range → Text
country r = encode r.cc

module _ (codes : List Cc) (v4 v6 : List Range) where
  written-IsValid : IsValid (written codes v4 v6)
  unfolding IsValid written
  written-IsValid = (length-v4 codes v4 v6, length-v6 codes v4 v6)

  module _ (nc : length codes < room 2) (p : Packable codes 0 v4) where
    module _ (i : ℕ) (r : Range) (at : get_elem? v4 i ≡ some r) where
      fits : Fits codes 0 r
      fits = Packable-at codes 0 v4 i r p at

      field-at :
          (n o v : ℕ)
          → o + n ≤ 10
          → ((rest : Bytes) → read_le n (pack_v4 codes r ++ rest) o ≡ some v)
          → value n (packed (pack_v4 codes) v4) (i * 10 + o) ≡ v
      field-at n o v h read =
          let inside = get_elem?-lt v4 i r at in
          value-read n (packed (pack_v4 codes) v4) (i * 10 + o) v
            (omega (arith, length-v4 codes v4 v6))
            (read_le-at (pack_v4 codes) 10 (length-pack_v4 codes) n o v v4 i r at read)

      pub start-at : v4_start (written codes v4 v6) i ≡ r.start
      unfolding v4_start written
      start-at =
          let (_, b, c, _, _, _) = fits in
          ap (value 4 (packed (pack_v4 codes) v4)) (omega arith)
          ∙ field-at 4 0 r.start (omega arith) (read-start codes r (omega arith))

      pub stop-at : v4_stop (written codes v4 v6) i ≡ r.stop
      unfolding v4_stop written
      stop-at =
          let (_, _, c, _, _, _) = fits in field-at 4 4 r.stop (omega arith) (read-stop codes r c)

      index-lt : index_of codes r.cc < length codes
      index-lt =
          let (_, _, _, _, _, f) = fits in
          get_elem?-lt codes (index_of codes r.cc) r.cc (index_of-found codes r.cc f)

      pub code-at : v4_code (written codes v4 v6) i ≡ index_of codes r.cc
      unfolding v4_code written
      code-at =
          field-at 2 8 (index_of codes r.cc) (omega arith)
            (read-index codes r (omega (arith, index-lt)))

      pub country-at : code (written codes v4 v6) (index_of codes r.cc) ≡ some (some (country r))
      unfolding code written
      country-at =
          let (_, _, _, d, e, f) = fits in
          let found = index_of-found codes r.cc f in
          let held : ltb (length (packed encode codes)) (index_of codes r.cc * 2 + 2) ≡ false =
            ground (arith, length-codes codes v4 v6, index-lt) in
          rw (held, slice-at encode 2 (λ x. refl) codes (index_of codes r.cc) r.cc found)
            (ap some (letters r.cc d e))

    pub written-IsDisjoint :
        IsDisjoint (v4_start (written codes v4 v6)) (v4_stop (written codes v4 v6)) (length v4)
    unfolding IsDisjoint
    written-IsDisjoint = (
      λ i k.
          let (r, at) = get_elem?-some v4 i k in
          let (_, b, _, _, _, _) = fits i r at in omega (arith, start-at i r at, stop-at i r at),
      λ i j k l.
          let (q, atq) = get_elem?-some v4 i (omega arith) in
          let (r, atr) = get_elem?-some v4 j l in
          omega (
            arith,
            stop-at i q atq,
            start-at j r atr,
            Packable-order codes 0 v4 i j q r p atq atr k,
          ),
    )

    module _ (key : ℕ) where
      holds-at :
          (i : ℕ) (r : Range)
          → get_elem? v4 i ≡ some r
          → holds (v4_start (written codes v4 v6)) (v4_stop (written codes v4 v6)) key i
            ≡ in_range key r
      holds-at i r at = rw (start-at i r at, stop-at i r at) refl

      scanned :
          answer
            (written codes v4 v6)
            (v4_code (written codes v4 v6))
            (scan (v4_start (written codes v4 v6)) (v4_stop (written codes v4 v6)) key (length v4))
          ≡ some (map_option country (find_range v4 key))
      scanned = elim (Option-cases (find_range v4 key)) [
        | inl miss ↦
            let none' =
              scan-none (v4_start (written codes v4 v6)) (v4_stop (written codes v4 v6)) key
                (length v4)
                (λ i k.
                  let (r, at) = get_elem?-some v4 i k in
                  holds-at i r at ∙ find-none-at (in_range key) v4 i r miss at) in
            rw (none', miss) refl
        | inr (r, hit) ↦
            let (i, at) = find-at (in_range key) v4 r hit in
            let inside = find-eq-some (in_range key) v4 r hit in
            let some' =
              scan-some (v4_start (written codes v4 v6)) (v4_stop (written codes v4 v6)) key
                (length v4) i (get_elem?-lt v4 i r at) (holds-at i r at ∙ inside)
                (λ j k l.
                  let (q, atq) = get_elem?-some v4 j l in
                  let after = Packable-order codes 0 v4 i j r q p at atq k in
                  holds-at j q atq ∙ ground arith) in
            rw (some', hit, code-at i r at) (country-at i r at)
      ]

      -- The server answers for an IPv4 address, from the blob that the generator wrote, the country of
      -- the range that holds the address, and none when no range does. The counts fit their fields, and
      -- the ranges are as the generator merges them: not empty, in order without overlap, below 2^32,
      -- their countries two capital letters that the code list has.
      pub lookup-write :
          length v4 < room 4
          → length v6 < room 4
          → lookup (write codes v4 v6) (IpAddr.v4 key)
            ≡ some (map_option country (find_range v4 key))
      unfolding lookup written
      lookup-write n4 n6 =
          rw (table-write codes v4 v6 n4 n6 nc)
            (lookup_v4-scan (written codes v4 v6) key written-IsValid written-IsDisjoint ∙ scanned)
