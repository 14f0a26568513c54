-- ===== src/Geo/Lookup.antt =====
-- The lookups of src/ip_country.rs against a scan of all the records.
use recomp_net_server.Common.{
  ℕ, zero, suc, ◌+◌, ◌-◌, ◌*◌, ◌≤◌, ◌<◌, ◌≡◌, ◌≢◌, refl, inl, inr, Option, none, some, Bool, true,
  false, ◌&&◌, ltb, leb, ◌==◌, nat_eq, if◌then◌else◌, arith, Bool-cases, length,
}
use recomp_net_server.Common.Text.{Text}
use recomp_net_server.Geo.{Table, u16le, u32le, u64le, code, partition_point, lookup_v4, lookup_v6}
use recomp_net_server.Geo.Search.{Splits, partition_point-Splits}
use recomp_net_server.Geo.Reads.{IsValid, value, read_le-value}

module _ (start stop : ℕ → ℕ) where
  -- Records in order that do not overlap.
  unfoldable pub IsDisjoint : ℕ → Type 0
  IsDisjoint n =
      ((i : ℕ) → i < n → start i < stop i) × ((i j : ℕ) → i < j → j < n → stop i ≤ start j)

  pub ascends : (n : ℕ) → IsDisjoint n → (i j : ℕ) → i ≤ j → j < n → start i ≤ start j
  unfolding IsDisjoint
  ascends n (fill, order) i j p q = elim (Bool-cases (i == j)) [
    | inl same ↦ ground arith
    | inr apart ↦ omega (arith, fill i (omega arith), order i j (ground arith) q)
  ]

-- The record of index `i` holds the addresses from `start i` to `stop i`, `stop i` not among them.
module _ (start stop : ℕ → ℕ) (key : ℕ) where
  abbrev pub holds : ℕ → Bool
  holds i = leb (start i) key && ltb key (stop i)

  -- A scan of the records `0..n` for one that holds the key.
  unfoldable pub scan : ℕ → Option ℕ
  scan zero = none
  scan (suc n) = if holds n then some n else scan n

  pub scan-none : (n : ℕ) → ((i : ℕ) → i < n → holds i ≡ false) → scan n ≡ none
  unfolding scan
  scan-none zero h = refl
  scan-none (suc n) h = rw (h n (omega arith)) (scan-none n (λ i k. h i (omega arith)))

  pub scan-some :
      (n k : ℕ)
      → k < n
      → holds k ≡ true
      → ((i : ℕ) → k < i → i < n → holds i ≡ false)
      → scan n ≡ some k
  unfolding scan
  scan-some zero k l y h = absurd (omega arith)
  scan-some (suc n) k l y h = elim (Bool-cases (n == k)) [
    | inl same ↦ let e : n ≡ k = ground arith in rw (e, y) refl
    | inr apart ↦
        rw (h n (ground arith) (omega arith))
          (scan-some n k (ground arith) y (λ i p q. h i p (omega arith)))
  ]

  pub scan-first : (n : ℕ) → Splits start key n 0 → scan n ≡ none
  unfolding Splits
  scan-first n (_, _, above) = scan-none n (λ i k. ground (arith, above i (omega arith) k))

  module _ (n m : ℕ) (d : IsDisjoint start stop n) (s : Splits start key n (suc m)) where
    others : (i : ℕ) → i < n → i ≢ m → holds i ≡ false
    unfolding Splits IsDisjoint
    others i k ne =
        let (fill, order) = d in
        let (b, below, above) = s in
        elim (Bool-cases (ltb i m)) [
          | inl under ↦
              ground (arith, order i m (ground arith) (omega arith), below m (omega arith))
          | inr over ↦ ground (arith, above i (ground arith) k)
        ]

    pub scan-held : holds m ≡ true → scan n ≡ some m
    unfolding Splits
    scan-held h =
        let (b, _, _) = s in scan-some n m (omega arith) h (λ i k l. others i l (omega arith))

    pub scan-missed : holds m ≡ false → scan n ≡ none
    scan-missed h = scan-none n (λ i k. elim (Bool-cases (i == m)) [
      | inl same ↦ let e : i ≡ m = ground arith in rw e h
      | inr apart ↦ others i k (ground arith)
    ])

-- The answer for the record found.
abbrev pub answer : Table → (code_of : ℕ → ℕ) → Option ℕ → Option (Option Text)
answer t code_of none = some none
answer t code_of (some i) = code t (code_of i)

module _ (t : Table) where
  -- The fields of record `i` of the IPv4 part, and of the IPv6 part. An IPv6 record ends with the last
  -- address it holds.
  unfoldable pub v4_start : ℕ → ℕ
  v4_start i = value 4 t.v4 (i * 10)

  unfoldable pub v4_stop : ℕ → ℕ
  v4_stop i = value 4 t.v4 (i * 10 + 4)

  unfoldable pub v4_code : ℕ → ℕ
  v4_code i = value 2 t.v4 (i * 10 + 8)

  unfoldable pub v6_start : ℕ → ℕ
  v6_start i = value 8 t.v6 (i * 18)

  unfoldable pub v6_stop : ℕ → ℕ
  v6_stop i = value 8 t.v6 (i * 18 + 8) + 1

  unfoldable pub v6_code : ℕ → ℕ
  v6_code i = value 2 t.v6 (i * 18 + 16)

  v4-found :
      (key m : ℕ)
      → length t.v4 ≡ t.v4_count * 10
      → IsDisjoint v4_start v4_stop t.v4_count
      → partition_point (λ mid. u32le t.v4 (mid * 10)) key (suc t.v4_count) 0 t.v4_count ≡ some m
      → Splits v4_start key t.v4_count m
      → lookup_v4 t key ≡ answer t v4_code (scan v4_start v4_stop key t.v4_count)
  unfolding lookup_v4 u32le u16le v4_start v4_stop v4_code Splits
  v4-found key zero h d e s =
      let none' = scan-first v4_start v4_stop key t.v4_count s in rw (e, none') refl
  v4-found key (suc m) h d e s =
      let (inside, _, _) = s in
      let back : suc m - 1 ≡ m = omega arith in
      let later : (suc m == 0) ≡ false = ground arith in
      let es : u32le t.v4 (m * 10) ≡ some (v4_start m) =
        read_le-value 4 t.v4 (m * 10) (omega arith) in
      let ef : u32le t.v4 (m * 10 + 4) ≡ some (v4_stop m) =
        read_le-value 4 t.v4 (m * 10 + 4) (omega arith) in
      let ec : u16le t.v4 (m * 10 + 8) ≡ some (v4_code m) =
        read_le-value 2 t.v4 (m * 10 + 8) (omega arith) in
      (elim (Bool-cases (holds v4_start v4_stop key m)) [
        | inl y ↦
            let hit = scan-held v4_start v4_stop key t.v4_count m d s y in
            rw (e, back, later, es, ef, y, ec, hit) refl
        | inr n ↦
            let miss = scan-missed v4_start v4_stop key t.v4_count m d s n in
            rw (e, back, later, es, ef, n, miss) refl
      ])

  -- For a table whose parts have the counted length and whose IPv4 records are in order and do not
  -- overlap, the binary search gives what a scan of all the records gives: the country of the record
  -- that holds the address, and none when no record does.
  pub lookup_v4-scan :
      (key : ℕ)
      → IsValid t
      → IsDisjoint v4_start v4_stop t.v4_count
      → lookup_v4 t key ≡ answer t v4_code (scan v4_start v4_stop key t.v4_count)
  unfolding IsValid u32le v4_start
  lookup_v4-scan key (h4, h6) d =
      let (m, e, s) =
        partition_point-Splits (λ mid. u32le t.v4 (mid * 10)) key v4_start t.v4_count
          (λ i k. read_le-value 4 t.v4 (i * 10) (omega arith))
          (ascends v4_start v4_stop t.v4_count d) (suc t.v4_count) 0 t.v4_count (omega arith)
          (omega arith) (omega arith) (λ i k. absurd (omega arith))
          (λ i k l. absurd (omega arith)) in
      v4-found key m h4 d e s

  v6-found :
      (key m : ℕ)
      → length t.v6 ≡ t.v6_count * 18
      → IsDisjoint v6_start v6_stop t.v6_count
      → partition_point (λ mid. u64le t.v6 (mid * 18)) key (suc t.v6_count) 0 t.v6_count ≡ some m
      → Splits v6_start key t.v6_count m
      → lookup_v6 t key ≡ answer t v6_code (scan v6_start v6_stop key t.v6_count)
  unfolding lookup_v6 u64le u16le v6_start v6_stop v6_code Splits
  v6-found key zero h d e s =
      let none' = scan-first v6_start v6_stop key t.v6_count s in rw (e, none') refl
  v6-found key (suc m) h d e s =
      let (inside, _, _) = s in
      let back : suc m - 1 ≡ m = omega arith in
      let later : (suc m == 0) ≡ false = ground arith in
      let es : u64le t.v6 (m * 18) ≡ some (v6_start m) =
        read_le-value 8 t.v6 (m * 18) (omega arith) in
      let ef : u64le t.v6 (m * 18 + 8) ≡ some (value 8 t.v6 (m * 18 + 8)) =
        read_le-value 8 t.v6 (m * 18 + 8) (omega arith) in
      let ec : u16le t.v6 (m * 18 + 16) ≡ some (v6_code m) =
        read_le-value 2 t.v6 (m * 18 + 16) (omega arith) in
      (elim (Bool-cases (leb (v6_start m) key && leb key (value 8 t.v6 (m * 18 + 8)))) [
        | inl y ↦
            let hit = scan-held v6_start v6_stop key t.v6_count m d s (ground (arith)) in
            rw (e, back, later, es, ef, y, ec, hit) refl
        | inr n ↦
            let miss = scan-missed v6_start v6_stop key t.v6_count m d s (ground (arith)) in
            rw (e, back, later, es, ef, n, miss) refl
      ])

  -- For a table whose parts have the counted length and whose IPv6 records are in order and do not
  -- overlap, the binary search gives what a scan of all the records gives: the country of the record
  -- that holds the address, and none when no record does.
  pub lookup_v6-scan :
      (key : ℕ)
      → IsValid t
      → IsDisjoint v6_start v6_stop t.v6_count
      → lookup_v6 t key ≡ answer t v6_code (scan v6_start v6_stop key t.v6_count)
  unfolding IsValid u64le v6_start
  lookup_v6-scan key (h4, h6) d =
      let (m, e, s) =
        partition_point-Splits (λ mid. u64le t.v6 (mid * 18)) key v6_start t.v6_count
          (λ i k. read_le-value 8 t.v6 (i * 18) (omega arith))
          (ascends v6_start v6_stop t.v6_count d) (suc t.v6_count) 0 t.v6_count (omega arith)
          (omega arith) (omega arith) (λ i k. absurd (omega arith))
          (λ i k l. absurd (omega arith)) in
      v6-found key m h6 d e s
