-- ===== src/Automatch/Queue/Pairing.antt =====
-- Which pairs the scan of src/automatch.rs finds: `find_pair` is sound and complete.
use recomp_net_server.Common.{
  ℕ, zero, suc, ◌+◌, ◌*◌, ◌/◌, ◌≤◌, ◌≡◌, ◌≢◌, ◌⊎◌, inl, inr, refl, sym, subst, max, Bool, true,
  false, not, ◌&&◌, ◌||◌, none, some, List, [], ◌∷◌, ◌==◌, nat_eq, string_eq, contains, is_some,
  arith, Bool-cases, Option-cases, get_elem?,
}
use recomp_net_server.Common.Int.{is_negative, to_ℕ}
use recomp_net_server.Automatch.Ticket.{
  MatchKey, key_eq, Ticket, Meeting, waited, blocked, relay_possible, measurable, rtt_ok,
  rematch_ok,
}
use recomp_net_server.Automatch.Queue.{eligible, scan_partners, scan_keys, scan_tickets}

-- A hit of the scan: two different tickets of the list, a key of the first, and the test passed.
pub record Hit (test : MatchKey → Ticket → Ticket → Bool) (ts : List Ticket) (i j : ℕ)
    (key : MatchKey) : Type 0 where
  pub a : Ticket
  pub b : Ticket
  pub at_i : get_elem? ts i ≡ some a
  pub at_j : get_elem? ts j ≡ some b
  pub differ : i ≢ j
  pub own_key : contains a.keys key ≡ true
  pub passed : test key a b ≡ true

module _ (test : MatchKey → Ticket → Ticket → Bool) where
  scan_partners_sound :
      (i : ℕ) (a : Ticket) (key : MatchKey) (j : ℕ) (bs : List Ticket) (r : ℕ)
      → scan_partners test i a key j bs ≡ some r
      → (k : ℕ) × (b : Ticket) × (r ≡ j + k)
        × (get_elem? bs k ≡ some b)
        × (test key a b ≡ true)
        × (i ≢ r)
  unfolding scan_partners
  scan_partners_sound i a key j [] r h = absurd (ground arith)
  scan_partners_sound i a key j (b ∷ bs) r h = elim (Bool-cases (not (i == j) && test key a b)) [
    | inl e ↦ (0, b, ground arith, refl, ground arith, ground arith)
    | inr e ↦
        (let (k, b', p, q, t, d) = scan_partners_sound i a key (suc j) bs r (ground arith) in
          (suc k, b', omega arith, q, t, d))
  ]

  scan_partners_complete :
      (i : ℕ) (a : Ticket) (key : MatchKey) (j : ℕ) (bs : List Ticket)
      → scan_partners test i a key j bs ≡ none
      → (k : ℕ) (b : Ticket) → get_elem? bs k ≡ some b
      → i ≢ j + k
      → test key a b ≡ false
  unfolding scan_partners
  scan_partners_complete i a key j [] h k b e d = absurd (ground arith)
  scan_partners_complete i a key j (c ∷ bs) h zero b e d = ground arith
  scan_partners_complete i a key j (c ∷ bs) h (suc k) b e d =
      scan_partners_complete i a key (suc j) bs (ground arith) k b e (omega arith)

  scan_keys_sound :
      (i : ℕ) (a : Ticket) (all : List Ticket) (keys : List MatchKey) (i' j : ℕ) (key : MatchKey)
      → scan_keys test i a all keys ≡ some (i', j, key)
      → (b : Ticket) × (i' ≡ i)
        × (get_elem? all j ≡ some b)
        × (test key a b ≡ true)
        × (i ≢ j)
        × (contains keys key ≡ true)
  unfolding scan_keys
  scan_keys_sound i a all [] i' j key h = absurd (ground arith)
  scan_keys_sound i a all (k ∷ keys) i' j key h =
      elim (Option-cases (scan_partners test i a k 0 all)) [
        | inl e ↦
            (let (b, p, q, t, d, c) = scan_keys_sound i a all keys i' j key (ground arith) in
              (b, p, q, t, d, ground arith))
        | inr (r, e) ↦
            (let (n, b, p, q, t, d) = scan_partners_sound i a k 0 all r e in
              let same : k ≡ key = ground arith in
              let at : n ≡ j = ground arith in
              (
                b,
                ground arith,
                subst (λ m. get_elem? all m ≡ some b) at q,
                subst (λ l. test l a b ≡ true) same t,
                ground arith,
                ground (arith, (key_eq.equal_iff k key).1 same),
              ))
      ]

  scan_keys_complete :
      (i : ℕ) (a : Ticket) (all : List Ticket) (keys : List MatchKey)
      → scan_keys test i a all keys ≡ none
      → (j : ℕ) (b : Ticket) (key : MatchKey) → contains keys key ≡ true
      → get_elem? all j ≡ some b
      → i ≢ j
      → test key a b ≡ false
  unfolding scan_keys
  scan_keys_complete i a all [] h j b key c e d = absurd (ground arith)
  scan_keys_complete i a all (k ∷ keys) h j b key c e d = elim (Bool-cases (k == key)) [
    | inl q ↦
        subst (λ l. test l a b ≡ false) ((key_eq.equal_iff k key).0 q)
          (scan_partners_complete i a k 0 all (ground arith) j b e (omega arith))
    | inr q ↦ scan_keys_complete i a all keys (ground arith) j b key (ground arith) e d
  ]

  scan_tickets_sound :
      (i : ℕ) (all rest : List Ticket) (i' j : ℕ) (key : MatchKey)
      → scan_tickets test i all rest ≡ some (i', j, key)
      → (k : ℕ) × (a b : Ticket) × (i' ≡ i + k)
        × (get_elem? rest k ≡ some a)
        × (get_elem? all j ≡ some b)
        × (test key a b ≡ true)
        × (i' ≢ j)
        × (contains a.keys key ≡ true)
  unfolding scan_tickets
  scan_tickets_sound i all [] i' j key h = absurd (ground arith)
  scan_tickets_sound i all (a ∷ rest) i' j key h =
      elim (Option-cases (scan_keys test i a all a.keys)) [
        | inl e ↦
            (let (k, a', b, p, q, r, t, d, c) =
                scan_tickets_sound (suc i) all rest i' j key (ground arith) in
              (suc k, a', b, omega arith, q, r, t, d, c))
        | inr (hit, e) ↦
            (let (b, p, q, t, d, c) = scan_keys_sound i a all a.keys i' j key (ground arith) in
              (0, a, b, omega arith, refl, q, t, (λ x. d (omega arith)), c))
      ]

  first_none :
      (x : Ticket) (all rest : List Ticket) (i : ℕ)
      → scan_tickets test i all (x ∷ rest) ≡ none
      → scan_keys test i x all x.keys ≡ none
  unfolding scan_tickets
  first_none x all rest i h = ground arith

  scan_tickets_complete :
      (i : ℕ) (all rest : List Ticket)
      → scan_tickets test i all rest ≡ none
      → (k j : ℕ) (a b : Ticket) (key : MatchKey) → get_elem? rest k ≡ some a
      → get_elem? all j ≡ some b
      → i + k ≢ j
      → contains a.keys key ≡ true
      → test key a b ≡ false
  unfolding scan_tickets
  scan_tickets_complete i all [] h k j a b key ea eb d c = absurd (ground arith)
  scan_tickets_complete i all (x ∷ rest) h zero j a b key ea eb d c =
      scan_keys_complete i a all a.keys
        (subst (λ (y : Ticket). scan_keys test i y all y.keys ≡ none) (ground arith)
          (first_none x all rest i h))
        j b key c eb (omega arith)
  scan_tickets_complete i all (x ∷ rest) h (suc k) j a b key ea eb d c =
      scan_tickets_complete (suc i) all rest (ground arith) k j a b key ea eb (omega arith) c

  pub scan_sound :
      (ts : List Ticket) (i j : ℕ) (key : MatchKey)
      → scan_tickets test 0 ts ts ≡ some (i, j, key)
      → Hit test ts i j key
  scan_sound ts i j key h =
      let (k, a, b, p, q, r, t, d, c) = scan_tickets_sound 0 ts ts i j key h in
      record {
        a = a;
        b = b;
        at_i = subst (λ m. get_elem? ts m ≡ some a) (omega arith) q;
        at_j = r;
        differ = d;
        own_key = c;
        passed = t;
      }

  pub scan_complete :
      (ts : List Ticket)
      → scan_tickets test 0 ts ts ≡ none
      → (i j : ℕ) (key : MatchKey) → ¬ Hit test ts i j key
  scan_complete ts h i j key hit = cc (
    scan_tickets_complete 0 ts ts h i j hit.a hit.b key hit.at_i hit.at_j (omega arith) hit.own_key,
    hit.passed,
  )

-- What two tickets must share to be put together under a key, whichever of them comes first.
pub record Compatible (now : ℕ) (key : MatchKey) (a b : Ticket) : Type 0 where
  pub a_key : contains a.keys key ≡ true
  pub b_key : contains b.keys key ≡ true
  pub accounts : a.account_id ≢ b.account_id
  pub a_admits : contains a.blocks b.account_id ≡ false
  pub b_admits : contains b.blocks a.account_id ≡ false
  pub relay :
      (is_some a.relay_endpoint ≡ true)
      ⊎ (is_some b.relay_endpoint ≡ true)
      ⊎ ((a.ice_relay ≡ true) × (b.ice_relay ≡ true))
  pub a_measured : (is_negative a.rtt_ms ≡ false) ⊎ (3 ≤ waited now a)
  pub b_measured : (is_negative b.rtt_ms ≡ false) ⊎ (3 ≤ waited now b)
  pub near :
      (is_negative a.rtt_ms ≡ true)
      ⊎ (is_negative b.rtt_ms ≡ true)
      ⊎ (100 ≤ max (waited now a) (waited now b))
      ⊎ (to_ℕ a.rtt_ms + to_ℕ b.rtt_ms ≤ 120 + 60 * (max (waited now a) (waited now b) / 20))

pub eligible-Compatible :
    (recent : List Meeting) (now cooldown : ℕ) (allow : Bool) (key : MatchKey) (a b : Ticket)
    → contains a.keys key ≡ true
    → eligible recent now cooldown allow key a b ≡ true
    → Compatible now key a b
unfolding eligible blocked relay_possible measurable rtt_ok
eligible-Compatible recent now cooldown allow key a b c h = record {
  a_key = c;
  b_key = ground arith;
  accounts = ground (arith, string_eq.equal_iff a.account_id b.account_id);
  a_admits = ground arith;
  b_admits = ground arith;
  relay = ground arith;
  a_measured = ground arith;
  b_measured = ground arith;
  near = ground arith;
}

pub Compatible-eligible :
    (recent : List Meeting) (now cooldown : ℕ) (allow : Bool) (key : MatchKey) (a b : Ticket)
    → Compatible now key a b
    → (allow || rematch_ok recent now cooldown a b) ≡ true
    → eligible recent now cooldown allow key a b ≡ true
unfolding eligible blocked relay_possible measurable rtt_ok
Compatible-eligible recent now cooldown allow key a b c h =
    ground (arith, string_eq.equal_iff a.account_id b.account_id, c.relay, c.near)

pub Compatible-symm :
    (now : ℕ) (key : MatchKey) (a b : Ticket) → Compatible now key a b → Compatible now key b a
Compatible-symm now key a b c = record {
  a_key = c.b_key;
  b_key = c.a_key;
  accounts = λ e. c.accounts (sym e);
  a_admits = c.b_admits;
  b_admits = c.a_admits;
  relay = ground arith;
  a_measured = c.b_measured;
  b_measured = c.a_measured;
  near = ground (arith, c.near);
}
