-- ===== src/Hub.antt =====
-- `HubInner` of src/ws_lobby.rs: the connected clients and the lobbies, with the handlers that seat and
-- unseat clients. Of a client only the lobby that it is in is kept; its names, its account and its game
-- do not decide who sits where, and come in as arguments.
pub mod Seating
pub mod Sessions
pub mod Entries
pub mod Runs
pub mod Match
pub mod Examples
use recomp_net_server.Common.{
  ℕ, zero, suc, ◌+◌, max, set, Bool, true, false, not, ◌&&◌, ◌||◌, Option, none, some, List, [],
  ◌∷◌, map, String, leb, if◌then◌else◌, ◌==◌, string_eq, contains, is_some, min, length,
}
use recomp_net_server.Common.Map
use recomp_net_server.Lobby.{
  max_spectators, Slot, Lobby, Reply, refused, changed, joiner, member_ids, leave_closes,
  leave_seat, kick, seat, occupant, seat_joiner,
}

-- `MAX_LOBBIES`
abbrev pub max_lobbies : ℕ
max_lobbies = 64

abbrev pub max_slots : ℕ
max_slots = 8

pub record ClientMeta : Type 0 where
  pub lobby_id : Option String

pub record HubInner (V : Type 0) : Type 0 where
  pub clients : List (String × ClientMeta)
  pub lobbies : List (String × Lobby V)
  pub next_session : ℕ

-- `g.clients.get(player_id).and_then(|c| c.lobby_id.clone())`
abbrev pub own_lobby : Option ClientMeta → Option String
own_lobby none = none
own_lobby (some c) = c.lobby_id

-- `if let Some(c) = g.clients.get_mut(player_id) { … }`
abbrev pub write_client :
    (ClientMeta → ClientMeta) → String → List (String × ClientMeta) → List (String × ClientMeta)
write_client f player_id clients = elim (Map.get player_id clients) [
  | none ↦ clients
  | some c ↦ Map.insert player_id (f c) clients
]

abbrev pub sit_in : Option String → ClientMeta → ClientMeta
sit_in lobby_id c = record c { lobby_id = lobby_id }

unfoldable pub clear_members : List String → List (String × ClientMeta) → List (String × ClientMeta)
clear_members [] clients = clients
clear_members (m ∷ ms) clients = clear_members ms (write_client (sit_in none) m clients)

-- What a `create` message says of the lobby, with its defaults filled in.
pub record Terms (V : Type 0) : Type 0 where
  pub name : String
  pub game_name : String
  pub game_version : String
  pub disc_fp : String
  pub host_bind : String
  pub host_endpoint : String
  pub password_hash : Option (List ℕ)
  pub password_salt : Option (List ℕ)
  pub max_slots : ℕ
  pub allow_spectators : Bool
  pub match_caps : Option V

-- `vec![None; n]`
abbrev pub empty_seats : {V : Type 0} → ℕ → List (Option (Slot V))
empty_seats zero = []
empty_seats (suc n) = none ∷ empty_seats n

abbrev clamp_slots : ℕ → ℕ
clamp_slots n = max 2 (min n max_slots)

-- The lobby that `handle_create` inserts, with the host in its first seat.
unfoldable pub hosted_lobby :
    {V : Type 0}
    → (lobby_id player_id display_name country : String) → (session_id : ℕ) → Terms V
    → Lobby V
hosted_lobby lobby_id player_id display_name country session_id t = record {
  lobby_id = lobby_id;
  name = t.name;
  game_name = t.game_name;
  game_version = t.game_version;
  disc_fp = t.disc_fp;
  host_player_id = player_id;
  host_bind = t.host_bind;
  host_endpoint = t.host_endpoint;
  lan_endpoints = [];
  guest_endpoint = "";
  password_hash = t.password_hash;
  password_salt = t.password_salt;
  max_slots = clamp_slots t.max_slots;
  session_id = session_id;
  slots =
      set (empty_seats (clamp_slots t.max_slots)) 0 (some (joiner player_id display_name country));
  allow_spectators = t.allow_spectators;
  spectators = empty_seats (if t.allow_spectators then max_spectators else 0);
  match_caps = t.match_caps;
  relay_host_player_id = "";
  started = false;
  automatch = false;
}

module _ {V : Type 0} where
  unfoldable pub lobby_of : HubInner V → String → Option String
  lobby_of g player_id = own_lobby (Map.get player_id g.clients)

  -- A handler's answer: the hub, and the error code that goes to the client.
  abbrev pub with_client_in : Option String → String → HubInner V → HubInner V
  with_client_in lobby_id player_id g = record g {
    clients = write_client (sit_in lobby_id) player_id g.clients;
  }

  -- The first section of `handle_create` under the hub's lock.
  unfoldable pub create_refusal : HubInner V → (player_id : String) → Option String
  create_refusal g player_id =
      if is_some (lobby_of g player_id)
      then some "already_in_lobby"
      else if leb max_lobbies (length g.lobbies)
      then some "lobby_limit"
      else none

  -- Its last section, under a new lobby id.
  unfoldable pub insert_hosted :
      HubInner V → (player_id lobby_id display_name country : String) → Terms V → HubInner V
  insert_hosted g player_id lobby_id display_name country t =
      with_client_in (some lobby_id) player_id (record g {
        lobbies =
            Map.insert lobby_id
              (hosted_lobby lobby_id player_id display_name country g.next_session t) g.lobbies;
        next_session = min (g.next_session + 1) 4_294_967_295;
      })

  -- `seen` is the hub at the checks, `g` the hub at the insertion: the lock is free in between.
  unfoldable pub handle_create :
      (seen g : HubInner V)
      → (player_id lobby_id display_name country : String) → Terms V
      → HubInner V × Option String
  handle_create seen g player_id lobby_id display_name country t =
      elim (create_refusal seen player_id) [
        | some code ↦ (g, some code)
        | none ↦ (insert_hosted g player_id lobby_id display_name country t, none)
      ]

  -- `handle_join`, from the check of the client on. `gate` is the code of the check that refuses the
  -- joiner (block, disc, title, version, password, mods), if any.
  unfoldable pub handle_join :
      HubInner V
      → (player_id lobby_id : String) → (gate : Lobby V → Option String)
      → (display_name country guest_endpoint : String) → HubInner V × Option String
  handle_join g player_id lobby_id gate display_name country guest_endpoint =
      if is_some (lobby_of g player_id)
      then (g, some "already_in_lobby")
      else elim (Map.get lobby_id g.lobbies) [
        | none ↦ (g, some "gone")
        | some l ↦ (elim (gate l) [
          | some code ↦ (g, some code)
          | none ↦ (elim (seat_joiner l player_id display_name country guest_endpoint) [
            | refused code ↦ (g, some code)
            | changed l' ↦ (
              with_client_in (some lobby_id) player_id
                  (record g { lobbies = Map.insert lobby_id l' g.lobbies }),
              none,
            )
          ])
        ])
      ]

  unfoldable pub destroy_lobby : HubInner V → String → HubInner V
  destroy_lobby g lobby_id = elim (Map.get lobby_id g.lobbies) [
    | none ↦ g
    | some l ↦ record g {
      lobbies = Map.remove lobby_id g.lobbies;
      clients = clear_members (member_ids l) g.clients;
    }
  ]

  unfoldable pub client_leave : HubInner V → String → HubInner V
  unfolding destroy_lobby
  client_leave g player_id = elim (lobby_of g player_id) [
    | none ↦ g
    | some lobby_id ↦
        (let out = with_client_in none player_id g in
          elim (Map.get lobby_id g.lobbies) [
            | none ↦ out
            | some l ↦
                if leave_closes l player_id
                then destroy_lobby out lobby_id
                else record out { lobbies = Map.insert lobby_id (leave_seat l player_id) g.lobbies }
          ])
  ]

  abbrev pub victim_of : Option (Slot V) → String
  victim_of none = ""
  victim_of (some s) = s.player_id

  unfoldable pub handle_kick : HubInner V → String → ℕ → HubInner V × Option String
  handle_kick g player_id slot = elim (lobby_of g player_id) [
    | none ↦ (g, none)
    | some lobby_id ↦ (elim (Map.get lobby_id g.lobbies) [
      | none ↦ (g, none)
      | some l ↦ (elim (kick l player_id slot) [
        | refused code ↦ (g, some code)
        | changed l' ↦ (
          with_client_in none (victim_of (occupant (seat l slot)))
              (record g { lobbies = Map.insert lobby_id l' g.lobbies }),
          none,
        )
      ])
    ])
  ]
