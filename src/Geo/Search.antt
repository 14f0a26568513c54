-- ===== src/Geo/Search.antt =====
-- The binary search of both lookups (src/ip_country.rs).
use recomp_net_server.Common.{
  ℕ, zero, suc, ◌+◌, ◌/◌, ◌≤◌, ◌<◌, ◌≡◌, refl, inl, inr, Option, some, ltb, leb, arith, Bool-cases,
}
use recomp_net_server.Common.Options.{Returns}
use recomp_net_server.Geo.{partition_point}

-- The index splits the records: those before it start at the key or below, the others above.
unfoldable pub Splits : (starts : ℕ → ℕ) (key n : ℕ) → ℕ → Type 0
Splits starts key n m =
    (m ≤ n) × ((i : ℕ) → i < m → starts i ≤ key) × ((i : ℕ) → m ≤ i → i < n → key < starts i)

module _ (start : ℕ → Option ℕ) (key : ℕ) where
  -- The search returns, at an index of the range, when every record of it can be read.
  pub partition_point_total :
      (fuel lo hi : ℕ)
      → lo ≤ hi
      → hi < lo + fuel
      → ((i : ℕ) → i < hi → Returns (start i))
      → (m : ℕ) × (partition_point start key fuel lo hi ≡ some m) × (m ≤ hi)
  unfolding partition_point
  partition_point_total zero lo hi h f r = absurd (omega arith)
  partition_point_total (suc fuel) lo hi h f r = elim (Bool-cases (ltb lo hi)) [
    | inl go ↦
        let (s, e) = r ((lo + hi) / 2) (ground arith) in
        (elim (Bool-cases (leb s key)) [
          | inl below ↦
              let (m, v, n) =
                partition_point_total fuel ((lo + hi) / 2 + 1) hi (ground arith) (ground arith) r in
              (m, rw (go, e, below) v, n)
          | inr above ↦
              let (m, v, n) =
                partition_point_total fuel lo ((lo + hi) / 2) (ground arith) (ground arith)
                  (λ i k. r i (ground arith)) in
              (m, rw (go, e, above) v, ground arith)
        ])
    | inr stop ↦ (lo, rw stop refl, h)
  ]

  module _ (starts : ℕ → ℕ) (n : ℕ) where
    pub partition_point-Splits :
        ((i : ℕ) → i < n → start i ≡ some (starts i))
        → ((i j : ℕ) → i ≤ j → j < n → starts i ≤ starts j)
        → (fuel lo hi : ℕ) → lo ≤ hi
        → hi ≤ n
        → hi < lo + fuel
        → ((i : ℕ) → i < lo → starts i ≤ key)
        → ((i : ℕ) → hi ≤ i → i < n → key < starts i)
        → (m : ℕ) × (partition_point start key fuel lo hi ≡ some m) × Splits starts key n m
    unfolding partition_point Splits
    partition_point-Splits r asc zero lo hi h b f below above = absurd (omega arith)
    partition_point-Splits r asc (suc fuel) lo hi h b f below above =
        elim (Bool-cases (ltb lo hi)) [
          | inl go ↦
              let e = r ((lo + hi) / 2) (ground arith) in
              (elim (Bool-cases (leb (starts ((lo + hi) / 2)) key)) [
                | inl at ↦
                    let (m, v, s) =
                      partition_point-Splits r asc fuel ((lo + hi) / 2 + 1) hi (ground arith) b
                        (ground arith) (λ i k. ground (arith, asc i ((lo + hi) / 2))) above in
                    (m, rw (go, e, at) v, s)
                | inr over ↦
                    let (m, v, s) =
                      partition_point-Splits r asc fuel lo ((lo + hi) / 2) (ground arith)
                        (ground arith) (ground arith) below
                        (λ i k l. ground (arith, asc ((lo + hi) / 2) i)) in
                    (m, rw (go, e, over) v, s)
              ])
          | inr stop ↦ (lo, rw stop refl, (ground arith, below, λ i k l. above i (ground arith) l))
        ]
