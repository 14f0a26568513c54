-- ===== src/Hub/Examples.antt =====
-- A concrete hub, and instances of the theorems on the hub of src/ws_lobby.rs.
use recomp_net_server.Common.{
  ◌≤◌, ◌≡◌, ◌==◌, false, refl, true, none, some, List, [], ◌∷◌, string_eq, arith, String,
}
use recomp_net_server.Common.Map.{get}
use recomp_net_server.Automatch.Examples.{Value, blank}
use recomp_net_server.Lobby.Examples.{den}
use recomp_net_server.Hub.{ClientMeta, HubInner, Terms, lobby_of}
use recomp_net_server.Hub.Seating.{seats_at}
use recomp_net_server.Hub.Match.{Match, seat_match, seat_match_double}
use recomp_net_server.Hub.Runs.{
  Message, creates, joins, kicks, leaves, serve_messages, IsSound, serve_messages-IsSound,
}

abbrev client : ClientMeta
client = record { lobby_id = none }

abbrev quiet : HubInner Value
quiet = record {
  clients = ("ann", client) ∷ ("bob", client) ∷ ("cid", client) ∷ [];
  lobbies = [];
  next_session = 1;
}

abbrev terms : Terms Value
terms = record {
  name = "Den";
  game_name = "motk";
  game_version = "1.0";
  disc_fp = "";
  host_bind = "";
  host_endpoint = "";
  password_hash = none;
  password_salt = none;
  max_slots = 2;
  allow_spectators = true;
  match_caps = none;
}

quiet-IsSound : IsSound quiet
unfolding get lobby_of
quiet-IsSound = record { seats = λ x m. omega arith; lobbies = tt }

abbrev evening : List (Message Value)
evening =
    creates "ann" "den" "Ann" "" terms
    ∷ joins "bob" "den" none "Bob" "" ""
    ∷ joins "cid" "den" none "Cid" "" ""
    ∷ kicks "ann" 1
    ∷ leaves "cid"
    ∷ leaves "ann"
    ∷ []

serve_messages-IsSound_example : IsSound (serve_messages quiet evening)
serve_messages-IsSound_example = serve_messages-IsSound evening quiet quiet-IsSound

-- Ann sits in the den and is matched from the queue.
abbrev busy : HubInner Value
busy = record {
  clients = ("ann", record { lobby_id = some "den" }) ∷ ("eve", client) ∷ [];
  lobbies = ("den", den) ∷ [];
  next_session = 5;
}

abbrev duel : Match Value
duel = record {
  label = "Ranked";
  game_name = "motk";
  game_version = "1.0";
  disc_fp = "";
  max_slots = 2;
  floored_caps = blank;
  a = "ann";
  b = "eve";
  a_handle = "Ann";
  b_handle = "Eve";
  a_country = "";
  b_country = "";
  host_bind = "";
  relay_player_id = "ann";
  host_endpoint = "203.0.113.7:7777";
  guest_endpoint = "";
}

seat_match_double_example :
    let g' = (seat_match busy "match" duel).0 in
    (1 ≤ seats_at g' "ann" "den")
    × (1 ≤ seats_at g' "ann" "match")
    × (◌==◌ {T = String} "match" "den" ≡ false)
    × (lobby_of g' "ann" ≡ some "match")
seat_match_double_example =
    seat_match_double busy "den" "match" duel (omega arith) (unfold get in refl)
      (unfold get in refl) (unfold get in refl) (omega arith) (unfold get in omega arith)
