-- ===== src/Lobby.antt =====
-- `Slot` and `Lobby` of src/ws_lobby.rs: the two seat tables of a lobby under one seat index, and the
-- changes that the handlers make to a lobby. `V` is the type of the JSON values.
pub mod Seats
pub mod Moves
pub mod Changes
pub mod Roster
pub mod Joining
pub mod Consent
pub mod Start
pub mod Examples
use recomp_net_server.Common.{
  ℕ, zero, suc, ◌+◌, ◌-◌, Bool, true, false, not, ◌&&◌, ◌||◌, Option, none, some, List, [], ◌∷◌,
  ◌++◌, map, String, ltb, leb, if◌then◌else◌, ◌==◌, nat_eq, string_eq, length, get_elem?, set, any,
  all, find, is_some, is_none,
}

-- `SPECTATOR_SLOT_BASE`
abbrev pub spectator_slot_base : ℕ
spectator_slot_base = 64

abbrev pub max_spectators : ℕ
max_spectators = 4

abbrev pub is_spectator_seat : ℕ → Bool
is_spectator_seat seat = leb spectator_slot_base seat

abbrev pub spectator_seat : ℕ → ℕ
spectator_seat index = spectator_slot_base + index

pub record Slot (V : Type 0) : Type 0 where
  pub player_id : String
  pub display_name : String
  pub ready : Bool
  pub bios_offer : Option V
  pub mod_offer : Option V
  pub memcard_offer : Option V
  pub country : String
  pub ice_path : Option String
  pub ice_path_at : Option ℕ

pub record Lobby (V : Type 0) : Type 0 where
  pub lobby_id : String
  pub name : String
  pub game_name : String
  pub game_version : String
  pub disc_fp : String
  pub host_player_id : String
  pub host_bind : String
  pub host_endpoint : String
  pub lan_endpoints : List String
  pub guest_endpoint : String
  pub password_hash : Option (List ℕ)
  pub password_salt : Option (List ℕ)
  pub max_slots : ℕ
  pub session_id : ℕ
  pub slots : List (Option (Slot V))
  pub allow_spectators : Bool
  pub spectators : List (Option (Slot V))
  pub match_caps : Option V
  pub relay_host_player_id : String
  pub started : Bool
  pub automatch : Bool

-- `iter().flatten()`
abbrev pub flatten : {V : Type 0} → List (Option (Slot V)) → List (Slot V)
flatten [] = []
flatten (none ∷ cells) = flatten cells
flatten (some s ∷ cells) = s ∷ flatten cells

-- `iter_mut().flatten()` with a write through the reference.
abbrev pub write_each :
    {V : Type 0} → (Slot V → Slot V) → List (Option (Slot V)) → List (Option (Slot V))
write_each f [] = []
write_each f (none ∷ cells) = none ∷ write_each f cells
write_each f (some s ∷ cells) = some (f s) ∷ write_each f cells

-- `iter().position(p)`, counted from `i`.
abbrev pub position_from : {A : Type 0} → (A → Bool) → ℕ → List A → Option ℕ
position_from p i [] = none
position_from p i (x ∷ xs) = if p x then some i else position_from p (suc i) xs

abbrev pub seats_player : {V : Type 0} → String → Option (Slot V) → Bool
seats_player player_id none = false
seats_player player_id (some s) = s.player_id == player_id

-- What a handler answers: an error code for the client, or the changed lobby.
pub data Reply (V : Type 0) : Type 0 where
  refused : String → Reply V
  changed : Lobby V → Reply V

-- Whether a trade of the two seats crosses from one table to the other.
abbrev pub crosses : ℕ → ℕ → Bool
crosses mine theirs =
    if is_spectator_seat mine then not (is_spectator_seat theirs) else is_spectator_seat theirs

-- `is_some_and(is_spectator_seat)`
abbrev pub is_gallery : Option ℕ → Bool
is_gallery none = false
is_gallery (some n) = is_spectator_seat n

module _ {V : Type 0} where
  unfoldable pub relay_host : Lobby V → String
  relay_host l = if l.relay_host_player_id == "" then l.host_player_id else l.relay_host_player_id

  -- none for a seat that neither table has.
  unfoldable pub seat : Lobby V → ℕ → Option (Option (Slot V))
  seat l n =
      if is_spectator_seat n
      then get_elem? l.spectators (n - spectator_slot_base)
      else get_elem? l.slots n

  -- A write through `seat_mut`, which does nothing for a seat that neither table has.
  unfoldable pub put : Lobby V → ℕ → Option (Slot V) → Lobby V
  put l n cell =
      if is_spectator_seat n
      then record l { spectators = set l.spectators (n - spectator_slot_base) cell }
      else record l { slots = set l.slots n cell }

  -- `seat(n).and_then(|c| c.as_ref())`
  abbrev pub occupant : Option (Option (Slot V)) → Option (Slot V)
  occupant none = none
  occupant (some cell) = cell

  unfoldable pub everyone : Lobby V → List (Slot V)
  everyone l = flatten l.slots ++ flatten l.spectators

  unfoldable pub member_ids : Lobby V → List String
  unfolding everyone
  member_ids l = map (λ (s : Slot V). s.player_id) (everyone l)

  unfoldable pub seat_of : Lobby V → String → Option ℕ
  seat_of l player_id = elim (position_from (seats_player player_id) 0 l.slots) [
    | some i ↦ some i
    | none ↦ (elim (position_from (seats_player player_id) 0 l.spectators) [
      | none ↦ none
      | some i ↦ some (spectator_seat i)
    ])
  ]

  unfoldable pub spectator_count : Lobby V → ℕ
  spectator_count l = length (flatten l.spectators)

  unfoldable pub player_count : Lobby V → ℕ
  player_count l = length (flatten l.slots)

  abbrev pub unready : Slot V → Slot V
  unready s = record s { ready = false }

  -- The loop `for s in lobby.slots.iter_mut().flatten() { s.ready = false; }`.
  unfoldable pub unready_players : Lobby V → Lobby V
  unready_players l = record l { slots = write_each unready l.slots }

  abbrev pub clear_path : Slot V → Slot V
  clear_path s = record s { ice_path = none; ice_path_at = none }

  unfoldable pub clear_lobby_ice_paths : Lobby V → Lobby V
  clear_lobby_ice_paths l = record l {
    slots = write_each clear_path l.slots;
    spectators = write_each clear_path l.spectators;
  }

  -- Take both seats, then put both; the seats differ and exist.
  unfoldable pub trade : Lobby V → ℕ → ℕ → Lobby V
  trade l from to =
      let a = occupant (seat l from) in
      let l1 = put l from none in
      let b = occupant (seat l1 to) in let l2 = put l1 to none in put (put l2 to a) from b

  unfoldable pub kick : Lobby V → String → ℕ → Reply V
  kick l player_id slot =
      if not (l.host_player_id == player_id) then refused "not_host" else elim (seat l slot) [
        | none ↦ refused "bad_slot"
        | some none ↦ refused "empty_slot"
        | some (some victim) ↦
            if victim.player_id == l.host_player_id || victim.player_id == player_id
            then refused "cannot_kick"
            else changed (
                clear_lobby_ice_paths
                  (unready_players (record (put l slot none) { guest_endpoint = "" })))
      ]

  unfoldable pub move : Lobby V → String → ℕ → ℕ → Reply V
  move l player_id from to =
      if from == to
      then changed l
      else if not (l.host_player_id == player_id)
      then refused "not_host"
      else if is_none (seat l from) || is_none (seat l to)
      then refused "bad_slot"
      else if is_none (occupant (seat l from))
      then refused "empty_slot"
      else changed (clear_lobby_ice_paths (unready_players (trade l from to)))

  unfoldable pub seat_move : Lobby V → String → ℕ → Reply V
  seat_move l player_id to = elim (seat_of l player_id) [
    | none ↦ refused "not_seated"
    | some from ↦
        if is_none (seat l to) || from == to
        then refused "bad_slot"
        else if is_some (occupant (seat l to))
        then refused "slot_taken"
        else changed (
            clear_lobby_ice_paths
              (unready_players (put (put l from none) to (occupant (seat l from)))))
  ]

  -- `handle_seat_swap_answer` on the lobby, with whether the seats were traded. none stands for the quiet
  -- decline: one of the two is not seated.
  unfoldable pub seat_swap_answer : Lobby V → String → Bool → String → Option (Lobby V × Bool)
  seat_swap_answer l player_id accept asker = elim (seat_of l player_id) [
    | none ↦ none
    | some mine ↦ (elim (seat_of l asker) [
      | none ↦ none
      | some theirs ↦
          (let swapped = unready_players (trade l mine theirs) in
            if not accept || mine == theirs
            then some (l, false)
            else some
                (if crosses mine theirs then clear_lobby_ice_paths swapped else swapped, true))
    ])
  ]

  abbrev pub vacate : String → Option (Slot V) → Option (Slot V)
  vacate player_id cell = if seats_player player_id cell then none else cell

  -- The part of `client_leave` for a member whose departure does not close the lobby.
  unfoldable pub leave_seat : Lobby V → String → Lobby V
  leave_seat l player_id = clear_lobby_ice_paths (record l {
    slots = map (vacate player_id) l.slots;
    spectators = map (vacate player_id) l.spectators;
    guest_endpoint = "";
  })

  -- Whether the departure closes the lobby.
  unfoldable pub leave_closes : Lobby V → String → Bool
  leave_closes l player_id =
      l.host_player_id == player_id || (l.automatch && leb (player_count l) 2)

  -- `handle_set_ready`'s write to the player's own seat: the offers that came with the message, and the
  -- ready mark only on a player seat.
  abbrev offer_or : Option V → Option V → Option V
  offer_or none old = old
  offer_or (some v) old = some v

  abbrev pub with_offers : Bool → Bool → (bios mods memcard : Option V) → Slot V → Slot V
  with_offers is_player ready bios mods memcard s = record s {
    ready = if is_player then ready else s.ready;
    bios_offer = offer_or bios s.bios_offer;
    mod_offer = offer_or mods s.mod_offer;
    memcard_offer = offer_or memcard s.memcard_offer;
  }

  -- `for s in … { if s.player_id == player_id { …; break; } }` on one table.
  abbrev pub write_own :
      String → (Slot V → Slot V) → List (Option (Slot V)) → List (Option (Slot V))
  write_own player_id f [] = []
  write_own player_id f (none ∷ cells) = none ∷ write_own player_id f cells
  write_own player_id f (some s ∷ cells) =
      if s.player_id == player_id then some (f s) ∷ cells else some s ∷ write_own player_id f cells

  unfoldable pub set_ready : Lobby V → String → Bool → (bios mods memcard : Option V) → Lobby V
  set_ready l player_id ready bios mods memcard =
      let f = with_offers (not (is_gallery (seat_of l player_id))) ready bios mods memcard in
      if any (seats_player player_id) l.slots
      then record l { slots = write_own player_id f l.slots }
      else record l { spectators = write_own player_id f l.spectators }

  -- The part of `seat_joiner_locked` that seats the joiner, once the password and the mods are fine:
  -- a free player seat, else a free seat of the gallery, else "full". `display_name` is the name made
  -- unique, `guest_endpoint` what `own_endpoint` makes of the joiner's address.
  abbrev pub joiner : String → String → String → Slot V
  joiner player_id display_name country = record {
    player_id = player_id;
    display_name = display_name;
    ready = false;
    bios_offer = none;
    mod_offer = none;
    memcard_offer = none;
    country = country;
    ice_path = none;
    ice_path_at = none;
  }

  abbrev pub is_free : Option (Slot V) → Bool
  is_free cell = is_none cell

  unfoldable pub free_seat : Lobby V → Option ℕ
  free_seat l =
      if leb l.max_slots (player_count l) || all is_some l.slots
      then elim (position_from is_free 0 l.spectators) [
        | none ↦ none
        | some i ↦ some (spectator_seat i)
      ]
      else position_from is_free 0 l.slots

  unfoldable pub seat_joiner :
      Lobby V → (player_id display_name country guest_endpoint : String) → Reply V
  seat_joiner l player_id display_name country guest_endpoint = elim (free_seat l) [
    | none ↦ refused "full"
    | some n ↦ (elim (seat l n) [
      | none ↦ refused "full"
      | some cell ↦
          changed
            (record (clear_lobby_ice_paths
              (unready_players (put l n (some (joiner player_id display_name country))))) {
                guest_endpoint = guest_endpoint;
              })
    ])
  ]
