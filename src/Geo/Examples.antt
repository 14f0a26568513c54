-- ===== src/Geo/Examples.antt =====
-- A small table as tools/gen_ip_country.py writes it, and the theorems on src/ip_country.rs at it.
use mathlib.Core.Option.{map as map_option}
use recomp_net_server.Common.{
  ◌+◌, ◌*◌, ◌^◌, ◌<◌, ◌≡◌, refl, none, some, List, [], ◌∷◌, arith, length, nat_eq,
}
use recomp_net_server.Common.Options.{Returns}
use recomp_net_server.Common.Bytes.{slice, from_le_bytes, to_le_bytes, room}
use recomp_net_server.Geo.{
  Table, read_le, u16le, u32le, u64le, table, from_utf8, to_ascii_uppercase, code, partition_point,
  lookup_v4, lookup_v6, IpAddr, to_ipv4_mapped, lookup, range_counts,
}
use recomp_net_server.Geo.Reads.{IsValid, value, lookup_total}
use recomp_net_server.Geo.Lookup.{IsDisjoint, v4_start, v4_stop, v6_start, v6_stop}
use recomp_net_server.Geo.Generator.{Cc, Range, index_of, packed, pack_v4, pack_v6, parts, write}
use recomp_net_server.Geo.RoundTrip.{written, table-write}
use recomp_net_server.Geo.Country.{Packable, find_range}
use recomp_net_server.Geo.Answer.{lookup-write, country, written-IsDisjoint}
use recomp_net_server.Geo.Reference.{scan_all, lookup-scan_all}

program : Unit {0}
unfolding read_le u16le u32le u64le table from_utf8 to_ascii_uppercase code partition_point
    lookup_v4 lookup_v6 to_ipv4_mapped lookup range_counts slice from_le_bytes to_le_bytes index_of
    packed pack_v4 pack_v6 parts write written
program = tt

abbrev pt : Cc
pt = (b'P', b'T')

abbrev us : Cc
us = (b'U', b'S')

abbrev codes : List Cc
codes = pt ∷ us ∷ []

abbrev v4 : List Range
v4 =
    record { start = 16_777_216; stop = 16_777_472; cc = us }
    ∷ record { start = 33_554_432; stop = 33_554_688; cc = pt }
    ∷ []

abbrev v6 : List Range
v6 = record { start = 0x2001 * 2 ^ 112; stop = 0x2002 * 2 ^ 112; cc = us } ∷ []

blob_length : length (write codes v4 v6) ≡ 18 + 4 + 20 + 18
unfolding program
blob_length = refl

in_first : lookup (write codes v4 v6) (IpAddr.v4 16_777_217) ≡ some (some (b'U' ∷ b'S' ∷ []))
unfolding program
in_first = refl

past_end : lookup (write codes v4 v6) (IpAddr.v4 16_777_472) ≡ some none
unfolding program
past_end = refl

mapped_address :
    lookup (write codes v4 v6) (IpAddr.v6 (0xffff * 2 ^ 32 + 33_554_433))
    ≡ some (some (b'P' ∷ b'T' ∷ []))
unfolding program
mapped_address = refl

in_v6 :
    lookup (write codes v4 v6) (IpAddr.v6 (0x2001 * 2 ^ 112 + 5)) ≡ some (some (b'U' ∷ b'S' ∷ []))
unfolding program
in_v6 = refl

truncated : lookup (b'R' ∷ b'C' ∷ []) (IpAddr.v4 1) ≡ some none
unfolding program
truncated = refl

small : length codes < room 2
small = omega arith

packs : Packable codes 0 v4
unfolding Packable
packs = ground arith

lookup_total_example : Returns (lookup (write codes v4 v6) (IpAddr.v4 16_777_300))
lookup_total_example = lookup_total (write codes v4 v6) (IpAddr.v4 16_777_300)

read_back : table (write codes v4 v6) ≡ some (some (written codes v4 v6))
read_back = table-write codes v4 v6 (omega arith) (omega arith) small

lookup-write_example :
    lookup (write codes v4 v6) (IpAddr.v4 33_554_500)
    ≡ some (map_option country (find_range v4 33_554_500))
lookup-write_example = lookup-write codes v4 v6 small packs 33_554_500 (omega arith) (omega arith)

abbrev here : Table
here = written codes v4 v6

here-IsValid : IsValid here
unfolding IsValid written program
here-IsValid = (refl, refl)

here-v4 : IsDisjoint (v4_start here) (v4_stop here) 2
here-v4 = written-IsDisjoint codes v4 v6 small packs

here-v6 : IsDisjoint (v6_start here) (v6_stop here) 1
unfolding IsDisjoint v6_start v6_stop value program
here-v6 = (
  λ i k. let first : i ≡ 0 = omega arith in rw first (omega arith),
  λ i j k l. absurd (omega arith),
)

lookup-scan_all_example :
    lookup (write codes v4 v6) (IpAddr.v6 (0x2001 * 2 ^ 112 + 5))
    ≡ scan_all here (IpAddr.v6 (0x2001 * 2 ^ 112 + 5))
unfolding written
lookup-scan_all_example =
    lookup-scan_all (write codes v4 v6) here read_back (IpAddr.v6 (0x2001 * 2 ^ 112 + 5)) here-v4
      here-v6
