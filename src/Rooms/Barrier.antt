-- ===== src/Rooms/Barrier.antt =====
-- The ready barrier of src/rooms.rs: `set_ready` meets it, `leave` resets it, `purge_stale` does not.
use recomp_net_server.Common.{
  ℕ, ◌+◌, ◌*◌, ◌≤◌, ◌<◌, ◌≡◌, inl, inr, refl, sym, ap, subst, some, Bool-cases, List, [], ◌∷◌, map,
  Bool, true, false, not, ◌&&◌, arith, length, any, all, retain, ◌==◌, nat_eq, ==_refl, is_some,
  leb, length-retain-lt,
}
use recomp_net_server.Common.Map
use recomp_net_server.Rooms.{
  Room, Member, starting, running, is_open, is_starting, is_running, is_member, ok, set_ready_room,
  update_barrier, all_ready, leave_room, unready, mark_running_room, drop_silent, is_stale, nanos,
  RoomRegistry, purge_stale,
}
use recomp_net_server.Rooms.Invariant.{IsValid}

-- After a successful `set_ready` of a valid room, it is starting exactly when every slot is taken
-- and every member is ready, it is open exactly otherwise, and it has a session id exactly when it
-- is starting.
pub set_ready_barrier :
    (player_id : ℕ) (ready : Bool) (now draw : ℕ) (r r' : Room)
    → IsValid r
    → set_ready_room player_id ready now draw r ≡ ok r'
    → (is_starting r'.status ≡ all_ready r')
      × (is_open r'.status ≡ not (all_ready r'))
      × (is_some r'.session_id ≡ all_ready r')
unfolding set_ready_room update_barrier all_ready
set_ready_barrier player_id ready now draw r r' v h = ground (arith, v.session)

nobody_left :
    (player_id : ℕ) (ms : List Member)
    → any (is_member player_id) (map unready (retain (λ m. not (is_member player_id m)) ms)) ≡ false
nobody_left player_id [] = refl
nobody_left player_id (m ∷ ms) = ground (arith, nobody_left player_id ms)

none_ready :
    (p : Member → Bool) (ms : List Member)
    → all (λ m. not m.ready) (map unready (retain p ms)) ≡ true
none_ready p [] = refl
none_ready p (m ∷ ms) = ground (arith, none_ready p ms)

unmet :
    (p : Member → Bool) (ms : List Member) (slots : ℕ)
    → 2 ≤ slots
    → (length (map unready (retain p ms)) == slots
        && all (λ m. m.ready) (map unready (retain p ms)))
      ≡ false
unmet p [] slots h = ground arith
unmet p (m ∷ ms) slots h = ground (arith, unmet p ms slots h)

-- A member that leaves a valid room is gone; nobody who stays is ready and the barrier is not met; the
-- room is running exactly if it was running and is never starting, and it has a session id
-- exactly if it is running.
pub leave_room_resets :
    (player_id now : ℕ) (r : Room)
    → IsValid r
    → let r' = leave_room player_id now r in
      (any (is_member player_id) r'.members ≡ false)
      × (all (λ m. not m.ready) r'.members ≡ true)
      × (all_ready r' ≡ false)
      × (is_starting r'.status ≡ false)
      × (is_running r'.status ≡ is_running r.status)
      × (is_some r'.session_id ≡ is_running r.status)
unfolding leave_room all_ready
leave_room_resets player_id now r v = (
  nobody_left player_id r.members,
  none_ready _ r.members,
  unmet (λ m. not (is_member player_id m)) r.members r.slot_count v.slots_low,
  ground arith,
  ground arith,
  ground (arith, v.session),
)

any-retain :
    (p q : Member → Bool) (ms : List Member)
    → any (λ m. p m && q m) ms ≡ true
    → (any p (retain q ms) ≡ true) × ((length (retain q ms) == 0) ≡ false)
any-retain p q [] h = absurd (ground arith)
any-retain p q (m ∷ ms) h = ground (arith, any-retain p q ms)

-- A room that survives the purge, under its id.
get-purge_stale :
    (rooms : List (ℕ × Room)) (id now timeout idle : ℕ) (r : Room)
    → Map.get id rooms ≡ some r
    → is_stale now idle (drop_silent now timeout r) ≡ false
    → Map.get id (purge_stale (record { rooms = rooms }) now timeout idle).rooms
      ≡ some (drop_silent now timeout r)
unfolding purge_stale Map.get
get-purge_stale [] id now timeout idle r h live = absurd (ground arith)
get-purge_stale ((j, v) ∷ rooms) id now timeout idle r h live = elim (Bool-cases (j == id)) [
  | inl own ↦
      let both : some v ≡ some r = rw own at h in
      let same : v ≡ r = ground (arith, both) in
      let live' : is_stale now idle (drop_silent now timeout v) ≡ false =
        subst (λ q. is_stale now idle (drop_silent now timeout q) ≡ false) {x = r} {y = v}
          (sym same) live in
      rw (live', own) (ap (λ q. some (drop_silent now timeout q)) same)
  | inr other ↦
      let h' : Map.get id rooms ≡ some r = rw other at h in
      let rest = get-purge_stale rooms id now timeout idle r h' live in
      elim (Bool-cases (is_stale now idle (drop_silent now timeout v))) [
        | inl gone ↦ rw gone rest
        | inr stays ↦ rw (stays, other) rest
      ]
]

-- The room is starting with its session id after the purge, has an empty slot, and can be marked running.
unfoldable pub Kept : RoomRegistry → (id now timeout idle : ℕ) → Room → Type 0
Kept reg id now timeout idle r =
    (r' : Room) × (Map.get id (purge_stale reg now timeout idle).rooms ≡ some r')
    × (r'.status ≡ starting)
    × (r'.session_id ≡ r.session_id)
    × (length r'.members < r'.slot_count)
    × (mark_running_room r.host_player_id now r'
        ≡ ok (record r' { status = running; updated_at = now }))

-- A room that is starting with its barrier met, whose host's heartbeat is within the timeout, which was
-- written within the idle time and of which some other member is silent: `purge_stale` drops the silent
-- members and leaves the barrier as it was. The room is still starting, with its session id, although a
-- slot is now empty, so that the host can still mark it running.
pub purge_keeps_starting :
    (reg : RoomRegistry) (id now timeout idle : ℕ) (r : Room)
    → Map.get id reg.rooms ≡ some r
    → r.status ≡ starting
    → all_ready r ≡ true
    → any
        (λ m. m.player_id == r.host_player_id && leb now (m.last_heartbeat + timeout * nanos))
        r.members
      ≡ true
    → now ≤ r.updated_at + idle * nanos
    → any (λ m. not (leb now (m.last_heartbeat + timeout * nanos))) r.members ≡ true
    → Kept reg id now timeout idle r
unfolding Kept drop_silent all_ready mark_running_room is_stale
purge_keeps_starting reg id now timeout idle r there s a host recent silent =
    let fresh : Member → Bool = λ m. leb now (m.last_heartbeat + timeout * nanos) in
    let (stays, some_left) = any-retain (is_member r.host_player_id) fresh r.members host in
    let live : is_stale now idle (drop_silent now timeout r) ≡ false =
      ground (arith, stays, some_left, recent) in
    (
      drop_silent now timeout r,
      get-purge_stale reg.rooms id now timeout idle r there live,
      s,
      refl,
      ground (arith, length-retain-lt fresh r.members silent),
      ground (arith, ==_refl r.host_player_id),
    )
