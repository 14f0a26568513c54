-- ===== src/Automatch/Queue/Rematch.antt =====
-- The preference for a fresh opponent in `find_pair` of src/automatch.rs: it decides between pairs,
-- and never whether there is one.
use recomp_net_server.Common.{
  ℕ, ◌≡◌, ◌≢◌, true, false, none, some, arith, Option-cases, get_elem?, inl, inr, subst, Bool-cases,
}
use recomp_net_server.Automatch.Ticket.{MatchKey, Ticket, rematch_ok}
use recomp_net_server.Automatch.Queue.{QueueInner, eligible, find_pair_pass, find_pair}
use recomp_net_server.Automatch.Queue.Offers.{exhausted-NonePairable}
use recomp_net_server.Automatch.Queue.Pairing.{
  scan_sound, scan_complete, Compatible, Compatible-eligible,
}

fresh_hit :
    (g : QueueInner) (now cooldown i j : ℕ) (key : MatchKey) (a b : Ticket)
    → find_pair_pass g now cooldown false ≡ some (i, j, key)
    → get_elem? g.tickets i ≡ some a
    → get_elem? g.tickets j ≡ some b
    → rematch_ok g.recent now cooldown a b ≡ true
unfolding find_pair_pass eligible
fresh_hit g now cooldown i j key a b h ea eb =
    let hit = scan_sound (eligible g.recent now cooldown false) g.tickets i j key h in
    let pa : hit.a ≡ a = (let e = hit.at_i in ground arith) in
    let pb : hit.b ≡ b = (let e = hit.at_j in ground arith) in
    subst (λ x. rematch_ok g.recent now cooldown x b ≡ true) pa
      (subst (λ y. rematch_ok g.recent now cooldown hit.a y ≡ true) pb
        (let q = hit.passed in ground arith))

-- If `find_pair` gives a pair that met within the cooldown, then every two waiting tickets that may be
-- put together have met within it.
pub find_pair_prefers_fresh :
    (g : QueueInner) (now cooldown i j : ℕ) (key : MatchKey) (a b : Ticket)
    → find_pair g now cooldown ≡ some (i, j, key)
    → get_elem? g.tickets i ≡ some a
    → get_elem? g.tickets j ≡ some b
    → rematch_ok g.recent now cooldown a b ≡ false
    → (m n : ℕ) (l : MatchKey) (c d : Ticket) → get_elem? g.tickets m ≡ some c
    → get_elem? g.tickets n ≡ some d
    → m ≢ n
    → Compatible now l c d
    → rematch_ok g.recent now cooldown c d ≡ false
unfolding find_pair
find_pair_prefers_fresh g now cooldown i j key a b h ea eb old m n l c d ec ed ne ok =
    elim (Option-cases (find_pair_pass g now cooldown false)) [
      | inl e ↦ (elim (Bool-cases (rematch_ok g.recent now cooldown c d)) [
        | inl fresh ↦ absurd (no_hit e fresh)
        | inr r ↦ r
      ])
      | inr (hit, e) ↦ absurd (cc (fresh_hit g now cooldown i j key a b (ground arith) ea eb))
    ]
  where
    no_hit :
        find_pair_pass g now cooldown false ≡ none → rematch_ok g.recent now cooldown c d ≡ true → ⊥
    no_hit e fresh =
        unfold find_pair_pass in
        scan_complete (eligible g.recent now cooldown false) g.tickets e m n l (record {
          a = c;
          b = d;
          at_i = ec;
          at_j = ed;
          differ = ne;
          own_key = ok.a_key;
          passed = Compatible-eligible g.recent now cooldown false l c d ok fresh;
        })

-- The cooldown alone never empties the queue: if two waiting tickets may be put together,
-- `find_pair` gives a pair.
pub find_pair_total :
    (g : QueueInner) (now cooldown m n : ℕ) (l : MatchKey) (c d : Ticket)
    → get_elem? g.tickets m ≡ some c
    → get_elem? g.tickets n ≡ some d
    → m ≢ n
    → Compatible now l c d
    → find_pair g now cooldown ≢ none
find_pair_total g now cooldown m n l c d ec ed ne ok h =
    exhausted-NonePairable g now cooldown h m n c d l ec ed ne ok
