-- ===== src/Rooms.antt =====
-- src/rooms.rs: the in-memory registry of game-filtered rooms behind the HTTP `/v1` routes.
-- A `Uuid` is a number, and a `DateTime<Utc>` a number of nanoseconds. What the code draws from the
-- random generator and reads from the clock is an argument of each operation.
pub mod Slots
pub mod Invariant
pub mod Registry
pub mod Join
pub mod Barrier
pub mod Bootstrap
pub mod Examples
use recomp_net_server.Common.{
  ℕ, zero, suc, ◌+◌, ◌*◌, ◌%◌, String, Option, none, some, List, [], ◌∷◌, ◌++◌, map, Bool, true,
  false, not, ◌&&◌, ◌||◌, ltb, leb, PartialEq, ◌==◌, if◌then◌else◌, length, any, all, retain, find,
  update_first, contains, is_some, get_or, nat_eq, string_eq,
}
use recomp_net_server.Common.Map

pub data RoomStatus : Type 0 where
  «open» starting running closed : RoomStatus

pub record Member : Type 0 where
  pub player_id : ℕ
  pub local_slot : ℕ
  pub ready : Bool
  pub last_heartbeat : ℕ

pub record RnetBootstrap : Type 0 where
  pub session_id : ℕ
  pub protocol_magic : ℕ
  pub slot_count : ℕ
  pub input_delay : ℕ
  pub local_slot : ℕ
  pub you_are_sim_authority : Bool

pub record Room : Type 0 where
  pub room_id : ℕ
  pub game_id : String
  pub client_version : String
  pub display_name : String
  pub slot_count : ℕ
  pub input_delay : ℕ
  pub protocol_magic : ℕ
  pub session_id : Option ℕ
  pub is_private : Bool
  pub join_code : Option (List ℕ)
  pub status : RoomStatus
  pub host_player_id : ℕ
  pub members : List Member
  pub created_at : ℕ
  pub updated_at : ℕ

pub record RoomSummary : Type 0 where
  pub room_id : ℕ
  pub game_id : String
  pub client_version : String
  pub display_name : String
  pub slot_count : ℕ
  pub member_count : ℕ
  pub input_delay : ℕ
  pub is_private : Bool
  pub status : RoomStatus

pub data RoomError : Type 0 where
  not_found full not_joinable bad_join_code game_mismatch version_mismatch already_joined :
      RoomError
  not_member not_host bad_slot_count game_not_allowed : RoomError

-- `Result<A, RoomError>`, with `?` as the bind of a `do` block.
pub data Result {κ} (R : Type κ) : Type κ where
  err : RoomError → Result R
  ok : R → Result R

infixl 5 ◌>>=◌ ◌>>◌
abbrev pub ◌>>=◌ {κ μ} : {R : Type κ} {S : Type μ} → Result R → (R → Result S) → Result S
err e >>= k = err e
ok r >>= k = k r

abbrev pub ◌>>◌ {μ} : {S : Type μ} → Result (Unit {0}) → Result S → Result S
check >> rest = check >>= λ _. rest

-- `if !b { return Err(e) }`
abbrev pub guard : Bool → RoomError → Result (Unit {0})
guard false e = err e
guard true e = ok tt

abbrev pub ok_or {ℓ} : {A : Type ℓ} → Option A → RoomError → Result A
ok_or none e = err e
ok_or (some a) e = ok a

-- Comparisons of a status with a constructor.
abbrev pub is_open : RoomStatus → Bool
is_open «open» = true
is_open _ = false

abbrev pub is_starting : RoomStatus → Bool
is_starting starting = true
is_starting _ = false

abbrev pub is_running : RoomStatus → Bool
is_running running = true
is_running _ = false

-- `RoomRegistry`: the `HashMap<Uuid, Room>`.
pub record RoomRegistry : Type 0 where
  pub rooms : List (ℕ × Room)

abbrev pub is_member : ℕ → Member → Bool
is_member player_id m = m.player_id == player_id

-- `(0..slot_count).find(|s| !used.contains(s))`, from `s` over `k` candidates.
pub free_from : List ℕ → ℕ → ℕ → Option ℕ
free_from used s zero = none
free_from used s (suc k) =
    let rest = free_from used (s + 1) k in if contains used s then rest else some s

-- The letters of a join code: b"ABCDEFGHJKLMNPQRSTUVWXYZ23456789".
abbrev alphabet : List ℕ
alphabet =
    b'A' ∷ b'B' ∷ b'C' ∷ b'D' ∷ b'E' ∷ b'F' ∷ b'G' ∷ b'H' ∷ b'J' ∷ b'K' ∷ b'L' ∷ b'M' ∷ b'N' ∷ b'P'
    ∷ b'Q' ∷ b'R' ∷ b'S' ∷ b'T' ∷ b'U' ∷ b'V' ∷ b'W' ∷ b'X' ∷ b'Y' ∷ b'Z' ∷ b'2' ∷ b'3' ∷ b'4'
    ∷ b'5' ∷ b'6' ∷ b'7' ∷ b'8' ∷ b'9' ∷ []

-- The argument holds the six words that the generator draws.
pub generate_join_code : List ℕ → List ℕ
generate_join_code draws = map (λ r. get_or alphabet (r % length alphabet) 0) draws

-- `code == provided` on texts.
abbrev pub codes_eq : List ℕ → List ℕ → Bool
codes_eq [] [] = true
codes_eq (a ∷ as') (b ∷ bs) = a == b && codes_eq as' bs
codes_eq _ _ = false

pub create :
    RoomRegistry
    → (room_id now : ℕ) (draws : List ℕ) → (host : ℕ) (game_id client_version display_name : String)
    → (slot_count input_delay protocol_magic : ℕ) (is_private : Bool) → Result (RoomRegistry × Room)
unfolding generate_join_code
create reg room_id now draws host game_id client_version display_name slot_count input_delay
      protocol_magic is_private =
    do
      guard (leb 2 slot_count && leb slot_count 8) bad_slot_count
      let room : Room = record {
        room_id = room_id;
        game_id = game_id;
        client_version = client_version;
        display_name = display_name;
        slot_count = slot_count;
        input_delay = input_delay;
        protocol_magic = protocol_magic;
        session_id = none;
        is_private = is_private;
        join_code = if is_private then some (generate_join_code draws) else none;
        status = «open»;
        host_player_id = host;
        members =
            record { player_id = host; local_slot = 0; ready = false; last_heartbeat = now } ∷ [];
        created_at = now;
        updated_at = now;
      }
      ok (record { rooms = Map.insert room_id room reg.rooms }, room)

pub get : RoomRegistry → ℕ → Option Room
get reg room_id = Map.get room_id reg.rooms

pub summary : Room → RoomSummary
summary r = record {
  room_id = r.room_id;
  game_id = r.game_id;
  client_version = r.client_version;
  display_name = r.display_name;
  slot_count = r.slot_count;
  member_count = length r.members;
  input_delay = r.input_delay;
  is_private = r.is_private;
  status = r.status;
}

-- The filter of `list_public`; no `client_version` in the query means any.
pub is_listed : String → Option String → Room → Bool
is_listed game_id client_version r =
    is_open r.status
    && not r.is_private
    && r.game_id == game_id
    && (elim client_version [ none ↦ true | some v ↦ v == r.client_version ])
    && ltb (length r.members) r.slot_count

pub list_public : RoomRegistry → String → Option String → List RoomSummary
unfolding is_listed summary
list_public reg game_id client_version =
    map summary (retain (is_listed game_id client_version) (map (λ kv. kv.1) reg.rooms))

-- `self.rooms.get_mut(room_id).ok_or(NotFound)?`, a change of that room, and a clone of it.
with_room : RoomRegistry → ℕ → (Room → Result Room) → Result (RoomRegistry × Room)
with_room reg room_id f = do
  room ← ok_or (Map.get room_id reg.rooms) not_found
  room' ← f room
  ok (record { rooms = Map.insert room_id room' reg.rooms }, room')

-- The code check of a private room.
pub code_accepted : Room → Option (List ℕ) → Bool
code_accepted room (some provided) = elim room.join_code [
  | none ↦ false
  | some code ↦ codes_eq code provided
]
code_accepted room none = false

pub join_room : ℕ → String → String → Option (List ℕ) → ℕ → Room → Result Room
unfolding free_from code_accepted
join_room player_id game_id client_version join_code now room = do
  guard (is_open room.status) not_joinable
  guard (room.game_id == game_id) game_mismatch
  guard (room.client_version == client_version) version_mismatch
  guard (not room.is_private || code_accepted room join_code) bad_join_code
  guard (not (any (is_member player_id) room.members)) already_joined
  guard (ltb (length room.members) room.slot_count) full
  let used = map (λ (m : Member). m.local_slot) room.members
  local_slot ← ok_or (free_from used 0 room.slot_count) full
  ok (record room {
    members =
        room.members
        ++ record {
          player_id = player_id;
          local_slot = local_slot;
          ready = false;
          last_heartbeat = now;
        }
          ∷ [];
    updated_at = now;
  })

pub join :
    RoomRegistry
    → (room_id player_id : ℕ) (game_id client_version : String) → Option (List ℕ)
    → ℕ
    → Result (RoomRegistry × Room)
unfolding join_room with_room
join reg room_id player_id game_id client_version join_code now =
    with_room reg room_id (join_room player_id game_id client_version join_code now)

abbrev unready : Member → Member
unready m = record m { ready = false }

-- The part of `leave` for a member that is not the host.
pub leave_room : ℕ → ℕ → Room → Room
leave_room player_id now room = record room {
  members = map unready (retain (λ m. not (is_member player_id m)) room.members);
  updated_at = now;
  status = if is_starting room.status then «open» else room.status;
  session_id = if is_starting room.status then none else room.session_id;
}

pub leave : RoomRegistry → (room_id player_id now : ℕ) → Result (RoomRegistry × Room)
unfolding leave_room
leave reg room_id player_id now = do
  room ← ok_or (Map.get room_id reg.rooms) not_found
  guard (any (is_member player_id) room.members) not_member
  let room' = leave_room player_id now room
  if room.host_player_id == player_id
      then ok (record { rooms = Map.remove room_id reg.rooms }, record room { status = closed })
      else ok (record { rooms = Map.insert room_id room' reg.rooms }, room')

pub all_ready : Room → Bool
all_ready room = length room.members == room.slot_count && all (λ m. m.ready) room.members

-- What `set_ready` does with the barrier once the member is marked. `draw` is the word that
-- `next_u32` gives.
pub update_barrier : ℕ → Room → Room
unfolding all_ready
update_barrier draw room =
    if all_ready room
    then record room {
      session_id = if is_some room.session_id then room.session_id else some draw;
      status = starting;
    }
    else if is_starting room.status
    then record room { status = «open»; session_id = none }
    else room

pub set_ready_room : ℕ → Bool → ℕ → ℕ → Room → Result Room
unfolding update_barrier
set_ready_room player_id ready now draw room = do
  guard (is_open room.status || is_starting room.status) not_joinable
  guard (any (is_member player_id) room.members) not_member
  ok (
      update_barrier draw (record room {
        members =
            update_first (is_member player_id)
              (λ m. record m { ready = ready; last_heartbeat = now }) room.members;
        updated_at = now;
      }))

pub set_ready :
    RoomRegistry
    → (room_id player_id : ℕ) (ready : Bool) (now draw : ℕ) → Result (RoomRegistry × Room)
unfolding set_ready_room with_room
set_ready reg room_id player_id ready now draw =
    with_room reg room_id (set_ready_room player_id ready now draw)

pub heartbeat_room : ℕ → ℕ → Room → Result Room
heartbeat_room player_id now room = do
  guard (any (is_member player_id) room.members) not_member
  ok (record room {
    members =
        update_first (is_member player_id) (λ m. record m { last_heartbeat = now }) room.members;
    updated_at = now;
  })

pub heartbeat : RoomRegistry → (room_id player_id now : ℕ) → Result (RoomRegistry × Room)
unfolding heartbeat_room with_room
heartbeat reg room_id player_id now = with_room reg room_id (heartbeat_room player_id now)

pub mark_running_room : ℕ → ℕ → Room → Result Room
mark_running_room player_id now room = do
  guard (room.host_player_id == player_id) not_host
  guard (is_starting room.status) not_joinable
  ok (record room { status = running; updated_at = now })

pub mark_running : RoomRegistry → (room_id player_id now : ℕ) → Result (RoomRegistry × Room)
unfolding mark_running_room with_room
mark_running reg room_id player_id now = with_room reg room_id (mark_running_room player_id now)

pub bootstrap_for : Room → ℕ → Option RnetBootstrap
bootstrap_for room player_id = elim room.session_id [
  | none ↦ none
  | some session_id ↦ (elim (find (is_member player_id) room.members) [
    | none ↦ none
    | some m ↦ some (record {
      session_id = session_id;
      protocol_magic = room.protocol_magic;
      slot_count = room.slot_count;
      input_delay = room.input_delay;
      local_slot = m.local_slot;
      you_are_sim_authority = m.local_slot == 0;
    })
  ])
]

abbrev pub nanos : ℕ
nanos = 1_000_000_000

-- The members whose last heartbeat is not older than the timeout.
pub drop_silent : (now heartbeat_timeout_secs : ℕ) → Room → Room
drop_silent now heartbeat_timeout_secs room = record room {
  members = retain (λ m. leb now (m.last_heartbeat + heartbeat_timeout_secs * nanos)) room.members;
}

-- The rooms that `purge_stale` removes, tested after the silent members are gone.
pub is_stale : (now idle_secs : ℕ) → Room → Bool
is_stale now idle_secs room =
    length room.members == 0
    || ltb (room.updated_at + idle_secs * nanos) now
    || not (any (is_member room.host_player_id) room.members)

pub purge_stale : RoomRegistry → (now heartbeat_timeout_secs idle_secs : ℕ) → RoomRegistry
unfolding drop_silent is_stale
purge_stale reg now heartbeat_timeout_secs idle_secs = record {
  rooms =
      retain (λ kv. not (is_stale now idle_secs kv.1))
        (map (λ kv. (kv.0, drop_silent now heartbeat_timeout_secs kv.1)) reg.rooms);
}

pub member_ids : RoomRegistry → ℕ → List ℕ
member_ids reg room_id = elim (Map.get room_id reg.rooms) [
  | none ↦ []
  | some r ↦ map (λ m. m.player_id) r.members
]

pub running_count : RoomRegistry → ℕ
running_count reg = length (retain (λ kv. is_running kv.1.status) reg.rooms)

-- `*out.entry(game_id).or_insert(0) += 1`; the order of a `BTreeMap` is not modelled.
bump : String → List (String × ℕ) → List (String × ℕ)
bump game_id out =
    Map.insert game_id ((elim (Map.get game_id out) [ none ↦ 0 | some n ↦ n ]) + 1) out

pub count_games : List Room → List (String × ℕ)
unfolding bump
count_games [] = []
count_games (r ∷ rs) = bump r.game_id (count_games rs)

pub counts_by_game : RoomRegistry → List (String × ℕ)
unfolding count_games
counts_by_game reg = count_games (map (λ kv. kv.1) reg.rooms)

pub running_counts_by_game : RoomRegistry → List (String × ℕ)
unfolding count_games
running_counts_by_game reg =
    count_games (retain (λ r. is_running r.status) (map (λ kv. kv.1) reg.rooms))
