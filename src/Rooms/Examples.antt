-- ===== src/Rooms/Examples.antt =====
-- Concrete rooms, tests, and instances of the theorems on src/rooms.rs.
use recomp_net_server.Common.{
  ℕ, ◌≡◌, refl, none, some, List, [], ◌∷◌, true, false, map, ◌↔◌, arith, string_eq, nat_eq,
}
use recomp_net_server.Common.Map
use recomp_net_server.Rooms.{
  Room, Member, RnetBootstrap, «open», starting, running, ok, join_room, set_ready_room, all_ready,
  create, join, set_ready, leave, mark_running, purge_stale,
}
use recomp_net_server.Rooms.Invariant.{IsValid}
use recomp_net_server.Rooms.Registry.{
  RegistrySound, Call, creates, joins, leaves, sets_ready, marks_running, purges, run, step,
  run-RegistrySound,
}
use recomp_net_server.Rooms.Join.{MayJoin, join_room_iff}
use recomp_net_server.Rooms.Barrier.{Kept, purge_keeps_starting}

abbrev host : Member
host = record { player_id = 1; local_slot = 0; ready = true; last_heartbeat = 9_000_000_000 }

abbrev guest : Member
guest = record { player_id = 2; local_slot = 1; ready = false; last_heartbeat = 2_000_000_000 }

abbrev half_ready : Room
half_ready = record {
  room_id = 7;
  game_id = "motk";
  client_version = "1.0";
  display_name = "den";
  slot_count = 2;
  input_delay = 3;
  protocol_magic = 5;
  session_id = none;
  is_private = false;
  join_code = none;
  status = «open»;
  host_player_id = 1;
  members = host ∷ guest ∷ [];
  created_at = 0;
  updated_at = 9_000_000_000;
}

abbrev met : Room
met = record half_ready {
  members = host ∷ record guest { ready = true } ∷ [];
  session_id = some 77;
  status = starting;
}

abbrev waiting : Room
waiting = record half_ready { members = host ∷ [] }

half_ready-IsValid : IsValid half_ready
half_ready-IsValid = ground arith

met-IsValid : IsValid met
met-IsValid = ground arith

waiting-IsValid : IsValid waiting
waiting-IsValid = ground arith

-- Host 1 creates room 7, player 2 joins, both get ready, the host starts, player 2 leaves.
abbrev session : List Call
session =
    creates 7 0 [] 1 "motk" "1.0" "den" 2 3 5 false
    ∷ joins 7 2 "motk" "1.0" none 1
    ∷ sets_ready 7 1 true 2 77
    ∷ sets_ready 7 2 true 3 78
    ∷ marks_running 7 1 4
    ∷ leaves 7 2 5
    ∷ purges 6 30 600
    ∷ []

session_runs :
    map (λ (kv : ℕ × Room). kv.1.status) (run (record { rooms = [] }) session).rooms ≡ running ∷ []
unfolding run step create join set_ready mark_running leave purge_stale Map.insert Map.get
session_runs = refl

run-RegistrySound_example : RegistrySound (run (record { rooms = [] }) session)
run-RegistrySound_example = run-RegistrySound session (record { rooms = [] }) tt

may_join : MayJoin 2 "motk" "1.0" none waiting
may_join = record {
  opened = refl;
  same_game = refl;
  same_version = refl;
  code_given = λ p. absurd (ground arith);
  absent = refl;
  room_left = omega arith;
}

join_room_iff_example :
    ((r' : Room) × (join_room 2 "motk" "1.0" none 5 waiting ≡ ok r'))
    ↔ MayJoin 2 "motk" "1.0" none waiting
join_room_iff_example = join_room_iff 2 "motk" "1.0" none 5 waiting

met_by_ready :
    set_ready_room 2 true 9_000_000_001 77 half_ready
    ≡ ok (record met {
      members = host ∷ record guest { ready = true; last_heartbeat = 9_000_000_001 } ∷ [];
      updated_at = 9_000_000_001;
    })
unfolding set_ready_room
met_by_ready = refl

purge_keeps_starting_example : Kept (record { rooms = (7, met) ∷ [] }) 7 10_000_000_000 5 600 met
unfolding all_ready Map.get
purge_keeps_starting_example =
    purge_keeps_starting (record { rooms = (7, met) ∷ [] }) 7 10_000_000_000 5 600 met refl refl
      refl refl (omega arith) refl

guest_bootstrap : RnetBootstrap
guest_bootstrap = record {
  session_id = 77;
  protocol_magic = 5;
  slot_count = 2;
  input_delay = 3;
  local_slot = 1;
  you_are_sim_authority = false;
}
