-- ===== src/Rooms/Bootstrap.antt =====
-- The bootstrap that `bootstrap_for` of src/rooms.rs hands to a member.
use recomp_net_server.Common.{
  ℕ, ◌<◌, ◌≡◌, ◌≢◌, sym, ap, ◌∙◌, none, some, true, ◌||◌, arith, Option-cases, inl, inr, find, any,
  ◌==◌, All-find, find-eq-none, find-eq-some, Distinct-find, nat_eq, is_some,
}
use recomp_net_server.Rooms.{
  Room, Member, RnetBootstrap, is_starting, is_running, is_member, bootstrap_for,
}
use recomp_net_server.Rooms.Invariant.{IsValid, IsHostSlot}
use recomp_net_server.Rooms.Registry.{IsSound}

bootstrap_inv :
    (r : Room) (player_id : ℕ) (b : RnetBootstrap)
    → bootstrap_for r player_id ≡ some b
    → (m : Member) × (find (is_member player_id) r.members ≡ some m)
      × (b.local_slot ≡ m.local_slot)
      × (b.you_are_sim_authority ≡ (m.local_slot == 0))
      × (r.session_id ≡ some b.session_id)
      × (b.slot_count ≡ r.slot_count)
unfolding bootstrap_for
bootstrap_inv r player_id b h = elim (Option-cases (find (is_member player_id) r.members)) [
  | inl e ↦ absurd (ground arith)
  | inr (m, e) ↦ (m, e, ground arith, ground arith, ground arith, ground arith)
]

-- In a sound room the bootstrap names the host, and only the host, as the authority of the
-- simulation, and gives a slot below the slot count.
pub bootstrap_authority :
    (r : Room) (player_id : ℕ) (b : RnetBootstrap)
    → IsSound r
    → bootstrap_for r player_id ≡ some b
    → (b.you_are_sim_authority ≡ (player_id == r.host_player_id)) × (b.local_slot < b.slot_count)
bootstrap_authority r player_id b (v, hh) h =
    let (m, found, slot, authority, _, count) = bootstrap_inv r player_id b h in
    let mine : m.player_id ≡ player_id =
      (let e = find-eq-some (is_member player_id) r.members m found in ground arith) in
    let host =
      All-find (IsHostSlot r.host_player_id) (is_member player_id) r.members m v.host_slot found in
    let low = All-find _ (is_member player_id) r.members m v.below found in
    (authority ∙ host ∙ ap (λ i. i == r.host_player_id) mine, omega arith)

-- Two members that get the same slot are one.
pub bootstrap_slots :
    (r : Room) (p q : ℕ) (b c : RnetBootstrap)
    → IsSound r
    → bootstrap_for r p ≡ some b
    → bootstrap_for r q ≡ some c
    → b.local_slot ≡ c.local_slot
    → p ≡ q
bootstrap_slots r p q b c (v, hh) hb hc e =
    let (m, fm, bm, _, _, _) = bootstrap_inv r p b hb in
    let (n, fn, cn, _, _, _) = bootstrap_inv r q c hc in
    let same : m ≡ n =
      Distinct-find (λ (m : Member). m.local_slot) (is_member p) (is_member q) r.members m n v.slots
        fm fn (sym bm ∙ e ∙ cn) in
    let pm = find-eq-some (is_member p) r.members m fm in
    let qn = find-eq-some (is_member q) r.members n fn in
    ground (arith, ap (λ (m : Member). m.player_id) same)

bootstrap_some :
    (r : Room) (player_id i : ℕ) (m : Member)
    → r.session_id ≡ some i
    → find (is_member player_id) r.members ≡ some m
    → is_some (bootstrap_for r player_id) ≡ true
unfolding bootstrap_for
bootstrap_some r player_id i m e f = ground arith

-- In a valid room that is starting or running, every member gets a bootstrap.
pub bootstrap_total :
    (r : Room) (player_id : ℕ)
    → IsValid r
    → (is_starting r.status || is_running r.status) ≡ true
    → any (is_member player_id) r.members ≡ true
    → is_some (bootstrap_for r player_id) ≡ true
bootstrap_total r player_id v s a = elim (Option-cases (find (is_member player_id) r.members)) [
  | inl e ↦ absurd (cc (find-eq-none (is_member player_id) r.members e))
  | inr (m, f) ↦ (elim (Option-cases r.session_id) [
    | inl e ↦ absurd (no_session e)
    | inr (i, e) ↦ bootstrap_some r player_id i m e f
  ])
]
  where
    no_session : r.session_id ≢ none
    no_session e = ground (arith, v.session)
