-- ===== src/Rooms/Slots.antt =====
-- The choice of a free slot in `join`: the search finds the least one, and it finds one whenever
-- fewer slots are used than the room has.
use recomp_net_server.Common.{
  ℕ, zero, suc, ◌+◌, ◌≤◌, ◌<◌, ◌≡◌, refl, none, some, List, [], ◌∷◌, true, false, not, arith,
  Bool-cases, inl, inr, length, retain, contains, any, length-retain-lt, ◌==◌, nat_eq,
}
use recomp_net_server.Rooms.{free_from}

without : ℕ → List ℕ → List ℕ
without s = retain (λ u. not (u == s))

contains-without : (s t : ℕ) (used : List ℕ) → s < t → contains (without s used) t ≡ contains used t
unfolding without
contains-without s t [] h = refl
contains-without s t (u ∷ used) h = ground (arith, contains-without s t used h)

free_from-without :
    (s : ℕ) (used : List ℕ) (t k : ℕ) → s < t → free_from (without s used) t k ≡ free_from used t k
unfolding free_from
free_from-without s used t zero h = refl
free_from-without s used t (suc k) h =
    ground (arith, contains-without s t used h, free_from-without s used (t + 1) k (omega arith))

any-not-not :
    (s : ℕ) (used : List ℕ) → contains used s ≡ true → any (λ u. not (not (u == s))) used ≡ true
any-not-not s [] h = h
any-not-not s (u ∷ used) h = ground (arith, any-not-not s used)

-- A search that fails has met `k` different used slots.
pub free_from-eq-none : (used : List ℕ) (s k : ℕ) → free_from used s k ≡ none → k ≤ length used
unfolding free_from without
free_from-eq-none used s zero h = omega arith
free_from-eq-none used s (suc k) h = elim (Bool-cases (contains used s)) [
  | inl hit ↦ ground (
    arith,
    free_from-eq-none (without s used) (s + 1) k,
    free_from-without s used (s + 1) k (omega arith),
    length-retain-lt (λ u. not (u == s)) used (any-not-not s used hit),
  )
  | inr miss ↦ ground arith
]

-- What the search returns is unused and in range, and every smaller candidate is used.
pub record IsLeastFree (used : List ℕ) (s k t : ℕ) : Type 0 where
  pub from_le : s ≤ t
  pub lt_end : t < s + k
  pub unused : contains used t ≡ false
  pub least : (u : ℕ) → s ≤ u → u < t → contains used u ≡ true

pub free_from-IsLeastFree :
    (used : List ℕ) (s k t : ℕ) → free_from used s k ≡ some t → IsLeastFree used s k t
unfolding free_from
free_from-IsLeastFree used s zero t h = absurd (ground arith)
free_from-IsLeastFree used s (suc k) t h = elim (Bool-cases (contains used s)) [
  | inl hit ↦
      (let ih : IsLeastFree used (s + 1) k t =
          free_from-IsLeastFree used (s + 1) k t (ground arith) in
        record {
          from_le = omega arith;
          lt_end = omega arith;
          unused = ih.unused;
          least = λ u h l. ground (arith, ih.least u);
        })
  | inr miss ↦
      (let e : s ≡ t = ground arith in
        record {
          from_le = omega arith;
          lt_end = omega arith;
          unused = rw e at miss;
          least = λ u h l. absurd (omega arith);
        })
]
