-- ===== src/Geo/Reference.antt =====
-- The whole lookup of src/ip_country.rs against a scan of the table's records.
use recomp_net_server.Common.{
  ℕ, ◌/◌, ◌^◌, ◌≡◌, subst, inl, inr, Option, none, some, arith, Option-cases,
}
use recomp_net_server.Common.Text.{Text}
use recomp_net_server.Common.Bytes.{Bytes}
use recomp_net_server.Geo.{Table, table, IpAddr, to_ipv4_mapped, lookup_in, lookup}
use recomp_net_server.Geo.Reads.{IsValid, table_total}
use recomp_net_server.Geo.Lookup.{
  IsDisjoint, scan, answer, v4_start, v4_stop, v4_code, v6_start, v6_stop, v6_code, lookup_v4-scan,
  lookup_v6-scan,
}

module _ (t : Table) where
  abbrev scan_v4 : ℕ → Option (Option Text)
  scan_v4 a = answer t (v4_code t) (scan (v4_start t) (v4_stop t) a t.v4_count)

  abbrev scan_v6 : ℕ → Option (Option Text)
  scan_v6 a = answer t (v6_code t) (scan (v6_start t) (v6_stop t) a t.v6_count)

  -- The country of the record that holds the address, found by looking at every record.
  unfoldable pub scan_all : IpAddr → Option (Option Text)
  scan_all (IpAddr.v4 a) = scan_v4 a
  scan_all (IpAddr.v6 a) = elim (to_ipv4_mapped a) [
    | some m ↦ scan_v4 m
    | none ↦ scan_v6 (a / 2 ^ 64)
  ]

module _ (blob : Bytes) (t : Table) (e : table blob ≡ some (some t)) where
  parsed-IsValid : IsValid t
  parsed-IsValid = elim (table_total blob) [
    | inl none' ↦ absurd (ground arith)
    | inr (u, e', h) ↦ subst IsValid {x = u} {y = t} (ground arith) h
  ]

  -- Every lookup in a blob that parses, of an IPv4, an IPv6 or an IPv4-mapped address, gives what a scan
  -- of all the records gives, when the records of each part are in order and do not overlap.
  pub lookup-scan_all :
      (addr : IpAddr)
      → IsDisjoint (v4_start t) (v4_stop t) t.v4_count
      → IsDisjoint (v6_start t) (v6_stop t) t.v6_count
      → lookup blob addr ≡ scan_all t addr
  unfolding lookup scan_all
  lookup-scan_all (IpAddr.v4 a) d4 d6 = rw e (lookup_v4-scan t a parsed-IsValid d4)
  lookup-scan_all (IpAddr.v6 a) d4 d6 = elim (Option-cases (to_ipv4_mapped a)) [
    | inl plain ↦
        rw (e, lookup_in, scan_all, plain) (lookup_v6-scan t (a / 2 ^ 64) parsed-IsValid d6)
    | inr (m, mapped) ↦ rw (e, lookup_in, scan_all, mapped) (lookup_v4-scan t m parsed-IsValid d4)
  ]
