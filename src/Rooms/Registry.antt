-- ===== src/Rooms/Registry.antt =====
-- The registry as a whole: every history of calls keeps its rooms well formed.
use recomp_net_server.Common.{
  ℕ, ◌<◌, ◌≡◌, ◌≢◌, refl, sym, subst, ap, ◌∙◌, Option, some, List, [], ◌∷◌, map, Bool, false, not,
  ◌||◌, String, arith, Bool-cases, Option-cases, inl, inr, length, retain, any, ◌==◌, ==_refl,
  nat_eq, any-append, any-retain, any-map,
}
use recomp_net_server.Common.Map
use recomp_net_server.Common.Map.{Values, Values-get, Values-insert, Values-remove}
use recomp_net_server.Rooms.{
  RoomRegistry, Room, Member, is_member, unready, Result, ok, err, free_from, create, with_room,
  join_room, leave_room, set_ready_room, heartbeat_room, mark_running_room, drop_silent, join,
  leave, set_ready, heartbeat, mark_running, purge_stale, is_stale, update_barrier,
}
use recomp_net_server.Rooms.Slots.{free_from-IsLeastFree}
use recomp_net_server.Rooms.Invariant.{
  IsValid, HasHost, touched, touched-HasHost, heartbeat_room-IsValid, set_ready_room-IsValid,
  mark_running_room-IsValid, added, added-IsValid, leave_room-IsValid, drop_silent-IsValid,
}

abbrev pub IsSound : Room → Type 0
IsSound r = IsValid r × HasHost r

abbrev pub RegistrySound : RoomRegistry → Type 0
RegistrySound reg = Values IsSound reg.rooms

-- What a successful `join` of a room has checked, and the room that it gives.
pub join_room_inv :
    (player_id : ℕ) (game_id client_version : String) (code : Option (List ℕ)) (now : ℕ)
    (r r' : Room)
    → join_room player_id game_id client_version code now r ≡ ok r'
    → (slot : ℕ) × (any (is_member player_id) r.members ≡ false)
      × (free_from (map (λ (m : Member). m.local_slot) r.members) 0 r.slot_count ≡ some slot)
      × (length r.members < r.slot_count)
      × (r'
          ≡ added r
              (record {
                player_id = player_id;
                local_slot = slot;
                ready = false;
                last_heartbeat = now;
              })
              now)
unfolding join_room
join_room_inv player_id game_id client_version code now r r' h =
    elim (Option-cases (free_from (map (λ (m : Member). m.local_slot) r.members) 0 r.slot_count)) [
      | inl e ↦ absurd (ground arith)
      | inr (slot, e) ↦ (slot, ground arith, e, ground arith, ground arith)
    ]

pub join_room-IsSound :
    (player_id : ℕ) (game_id client_version : String) (code : Option (List ℕ)) (now : ℕ)
    (r r' : Room)
    → IsSound r
    → join_room player_id game_id client_version code now r ≡ ok r'
    → IsSound r'
join_room-IsSound player_id game_id client_version code now r r' (v, hh) h =
    let (slot, absent, found, room_left, e) =
      join_room_inv player_id game_id client_version code now r r' h in
    let t = free_from-IsLeastFree _ _ _ _ found in
    let m : Member = record {
      player_id = player_id;
      local_slot = slot;
      ready = false;
      last_heartbeat = now;
    } in
    subst IsSound (sym e) (
      added-IsValid r m now absent t.unused (omega arith) hh v room_left,
      any-append (is_member r.host_player_id) r.members (m ∷ [])
          ∙ ap (λ b. b || any (is_member r.host_player_id) (m ∷ [])) hh,
    )

with_room-IsSound :
    (reg reg' : RoomRegistry) (room_id : ℕ) (f : Room → Result Room) (r' : Room)
    → ((r r' : Room) → IsSound r → f r ≡ ok r' → IsSound r')
    → RegistrySound reg
    → with_room reg room_id f ≡ ok (reg', r')
    → RegistrySound reg' × IsSound r'
unfolding with_room
with_room-IsSound reg reg' room_id f r' keep v h = elim (Option-cases (Map.get room_id reg.rooms)) [
  | inl e ↦ absurd (ground arith)
  | inr (r, e) ↦
      (let s = keep r r' (Values-get IsSound room_id r reg.rooms v e) (ground arith) in
        (
          subst RegistrySound {x = record { rooms = Map.insert room_id r' reg.rooms }} {y = reg'}
              (ground arith) (Values-insert IsSound room_id r' reg.rooms v s),
          s,
        ))
]

update_barrier-HasHost : (draw : ℕ) (r : Room) → HasHost r → HasHost (update_barrier draw r)
unfolding update_barrier
update_barrier-HasHost draw r h = ground arith

set_ready_room-IsSound :
    (player_id : ℕ) (ready : Bool) (now draw : ℕ) (r r' : Room)
    → IsSound r
    → set_ready_room player_id ready now draw r ≡ ok r'
    → IsSound r'
set_ready_room-IsSound player_id ready now draw r r' (v, hh) h = (
  set_ready_room-IsValid player_id ready now draw r r' v h,
  unfold set_ready_room in
      subst HasHost
        {x = update_barrier draw (
          touched r (is_member player_id) (λ m. record m { ready = ready; last_heartbeat = now })
            now)}
        {y = r'} (ground arith)
        (update_barrier-HasHost draw
          (touched r (is_member player_id) (λ m. record m { ready = ready; last_heartbeat = now })
            now)
          (touched-HasHost r (is_member player_id)
            (λ m. record m { ready = ready; last_heartbeat = now }) now (λ m. refl) (λ m. refl)
            hh)),
)

heartbeat_room-IsSound :
    (player_id now : ℕ) (r r' : Room)
    → IsSound r
    → heartbeat_room player_id now r ≡ ok r'
    → IsSound r'
heartbeat_room-IsSound player_id now r r' (v, hh) h = (
  heartbeat_room-IsValid player_id now r r' v h,
  unfold heartbeat_room in
      subst HasHost
        {x = touched r (is_member player_id) (λ m. record m { last_heartbeat = now }) now} {y = r'}
        (ground arith)
        (touched-HasHost r (is_member player_id) (λ m. record m { last_heartbeat = now }) now
          (λ m. refl) (λ m. refl) hh),
)

mark_running_room-IsSound :
    (player_id now : ℕ) (r r' : Room)
    → IsSound r
    → mark_running_room player_id now r ≡ ok r'
    → IsSound r'
mark_running_room-IsSound player_id now r r' (v, hh) h =
    (mark_running_room-IsValid player_id now r r' v h, unfold mark_running_room in ground arith)

leave_room-IsSound :
    (player_id now : ℕ) (r : Room)
    → r.host_player_id ≢ player_id
    → IsSound r
    → IsSound (leave_room player_id now r)
leave_room-IsSound player_id now r other (v, hh) = (
  leave_room-IsValid player_id now r v,
  unfold leave_room in
      any-map (is_member r.host_player_id) unready _ (λ m. refl)
      ∙ any-retain (is_member r.host_player_id) (λ m. not (is_member player_id m)) r.members
          (λ m e. ground arith)
      ∙ hh,
)

leave-IsSound :
    (reg reg' : RoomRegistry) (room_id player_id now : ℕ) (r' : Room)
    → RegistrySound reg
    → leave reg room_id player_id now ≡ ok (reg', r')
    → RegistrySound reg'
unfolding leave
leave-IsSound reg reg' room_id player_id now r' v h =
    elim (Option-cases (Map.get room_id reg.rooms)) [
      | inl e ↦ absurd (ground arith)
      | inr (r, e) ↦ (elim (Bool-cases (r.host_player_id == player_id)) [
        | inl host ↦
            subst RegistrySound {x = record { rooms = Map.remove room_id reg.rooms }} {y = reg'}
              (ground arith) (Values-remove IsSound room_id reg.rooms v)
        | inr other ↦
            (let s =
                leave_room-IsSound player_id now r (ground arith)
                  (Values-get IsSound room_id r reg.rooms v e) in
              (subst RegistrySound
                {x = record { rooms = Map.insert room_id (leave_room player_id now r) reg.rooms }}
                {y = reg'} (ground arith) (Values-insert IsSound room_id _ reg.rooms v s)))
      ])
    ]

create-IsSound :
    (reg reg' : RoomRegistry) (room_id now : ℕ) (draws : List ℕ)
    → (host : ℕ) (game_id client_version display_name : String)
    → (slot_count input_delay protocol_magic : ℕ) (is_private : Bool) → (r' : Room)
    → RegistrySound reg
    → create reg room_id now draws host game_id client_version display_name slot_count input_delay
        protocol_magic is_private
      ≡ ok (reg', r')
    → RegistrySound reg'
unfolding create
create-IsSound reg reg' room_id now draws host game_id client_version display_name slot_count
      input_delay protocol_magic is_private r' v h =
    subst RegistrySound {x = record { rooms = Map.insert room_id r' reg.rooms }} {y = reg'}
      (ground arith) (Values-insert IsSound room_id r' reg.rooms v (valid, ground arith))
  where
    valid : IsValid r'
    valid = record {
      slots_low = ground arith;
      slots_high = ground arith;
      seated = ground arith;
      ids = ground arith;
      slots = ground arith;
      below = ground arith;
      host_slot = ground (arith, ==_refl host);
      session = ground arith;
      code = ground arith;
    }

purge_rooms-IsSound :
    (now timeout idle : ℕ) (rooms : List (ℕ × Room))
    → Values IsSound rooms
    → Values IsSound (
        retain
          (λ kv. not (is_stale now idle kv.1))
          (map (λ kv. (kv.0, drop_silent now timeout kv.1)) rooms))
unfolding is_stale
purge_rooms-IsSound now timeout idle [] v = tt
purge_rooms-IsSound now timeout idle ((k, r) ∷ rooms) v =
    ground (
      arith,
      drop_silent-IsValid now timeout r v.0.0,
      purge_rooms-IsSound now timeout idle rooms v.1,
    )

-- A request of a client, or the periodic purge, with what the operation draws and the time.
pub data Call : Type 0 where
  creates :
      (room_id now : ℕ) (draws : List ℕ) (host : ℕ) (game_id client_version display_name : String)
      (slot_count input_delay protocol_magic : ℕ) (is_private : Bool)
      → Call
  joins :
      (room_id player_id : ℕ) (game_id client_version : String) → Option (List ℕ) → (now : ℕ) → Call
  leaves : (room_id player_id now : ℕ) → Call
  sets_ready : (room_id player_id : ℕ) (ready : Bool) (now draw : ℕ) → Call
  heartbeats : (room_id player_id now : ℕ) → Call
  marks_running : (room_id player_id now : ℕ) → Call
  purges : (now heartbeat_timeout_secs idle_secs : ℕ) → Call

-- Every error is returned before the first write, so it leaves the registry as it was.
abbrev pub after : RoomRegistry → Result (RoomRegistry × Room) → RoomRegistry
after reg (ok (reg', r)) = reg'
after reg (err e) = reg

unfoldable pub step : RoomRegistry → Call → RoomRegistry
step reg (creates id now draws host game version name slots delay magic private) =
    after reg (create reg id now draws host game version name slots delay magic private)
step reg (joins id player game version code now) =
    after reg (join reg id player game version code now)
step reg (leaves id player now) = after reg (leave reg id player now)
step reg (sets_ready id player ready now draw) = after reg (set_ready reg id player ready now draw)
step reg (heartbeats id player now) = after reg (heartbeat reg id player now)
step reg (marks_running id player now) = after reg (mark_running reg id player now)
step reg (purges now timeout idle) = purge_stale reg now timeout idle

unfoldable pub run : RoomRegistry → List Call → RoomRegistry
run reg [] = reg
run reg (c ∷ cs) = run (step reg c) cs

after-RegistrySound :
    (reg : RoomRegistry) (res : Result (RoomRegistry × Room))
    → RegistrySound reg
    → ((reg' : RoomRegistry) (r' : Room) → res ≡ ok (reg', r') → RegistrySound reg')
    → RegistrySound (after reg res)
after-RegistrySound reg (ok (reg', r')) v h = h reg' r' refl
after-RegistrySound reg (err e) v h = v

pub step-RegistrySound :
    (reg : RoomRegistry) (c : Call) → RegistrySound reg → RegistrySound (step reg c)
unfolding step join set_ready heartbeat mark_running purge_stale
step-RegistrySound reg (creates id now draws host game version name slots delay magic private) v =
    after-RegistrySound reg _ v λ reg' r' h.
      create-IsSound reg reg' id now draws host game version name slots delay magic private r' v h
step-RegistrySound reg (joins id player game version code now) v =
    after-RegistrySound reg _ v λ reg' r' h.
      (with_room-IsSound reg reg' id (join_room player game version code now) r'
        (join_room-IsSound player game version code now) v h).0
step-RegistrySound reg (leaves id player now) v =
    after-RegistrySound reg _ v λ reg' r' h. leave-IsSound reg reg' id player now r' v h
step-RegistrySound reg (sets_ready id player ready now draw) v =
    after-RegistrySound reg _ v λ reg' r' h.
      (with_room-IsSound reg reg' id (set_ready_room player ready now draw) r'
        (set_ready_room-IsSound player ready now draw) v h).0
step-RegistrySound reg (heartbeats id player now) v = after-RegistrySound reg _ v λ reg' r' h.
    (with_room-IsSound reg reg' id (heartbeat_room player now) r'
      (heartbeat_room-IsSound player now) v h).0
step-RegistrySound reg (marks_running id player now) v = after-RegistrySound reg _ v λ reg' r' h.
    (with_room-IsSound reg reg' id (mark_running_room player now) r'
      (mark_running_room-IsSound player now) v h).0
step-RegistrySound reg (purges now timeout idle) v =
    purge_rooms-IsSound now timeout idle reg.rooms v

-- Every history of calls, in any order and with any arguments, failing or not, leads from a
-- registry in which every room is sound (the empty one is) to another such registry: 2 to 8 slots,
-- no more members than slots, no two members with one id or one slot, every slot in range, the
-- host in the room and on slot 0 alone, a session id exactly when the status is starting or
-- running, no closed room, and a join code exactly in a private room.
pub run-RegistrySound :
    (cs : List Call) (reg : RoomRegistry) → RegistrySound reg → RegistrySound (run reg cs)
unfolding run
run-RegistrySound [] reg v = v
run-RegistrySound (c ∷ cs) reg v = run-RegistrySound cs (step reg c) (step-RegistrySound reg c v)
