-- ===== src/Lobby/Examples.antt =====
-- A concrete lobby, and instances of the theorems on the lobbies of src/ws_lobby.rs.
use recomp_net_server.Common.{
  ℕ, ◌≤◌, ◌≡◌, ◌≢◌, refl, true, false, Option, none, some, List, [], ◌∷◌, String, if◌then◌else◌,
  string_eq, nat_eq, arith, ltb,
}
use recomp_net_server.Automatch.Examples.{Value, blank, text, field, get_in, values}
use recomp_net_server.Lobby.{
  Slot, Lobby, changed, seat, put, seat_of, trade, unready_players, clear_lobby_ice_paths, kick,
  move, seat_move, seat_swap_answer, free_seat, seat_joiner, player_count, spectator_count,
  relay_host,
}
use recomp_net_server.Lobby.Seats.{seated, IsValid}
use recomp_net_server.Lobby.Moves.{holder, traded}
use recomp_net_server.Lobby.Roster.{
  Request, joins, kicks, moves, seat_moves, answers, leaves, serve, Unseated, serve_all,
  serve_all-IsValid,
}
use recomp_net_server.Lobby.Consent.{swap_needs_no_request}
use recomp_net_server.Lobby.Start.{
  host, caps_relay_via_ice, sanitize_match_caps, or_else, handle_start, stops, starts, Prepared,
  asks, host_relay_decision, start_transport, prepare_start, commit_start,
}
use recomp_net_server.Lobby.Start.Gate.{Carried, start_gate, gallery_never_starts}

abbrev pub sitting : String → Option String → Option ℕ → Slot Value
sitting player path at = record {
  player_id = player;
  display_name = player;
  ready = false;
  bios_offer = none;
  mod_offer = none;
  memcard_offer = none;
  country = "";
  ice_path = path;
  ice_path_at = at;
}

-- Ann hosts with Bob in the second seat and Cid in the gallery.
abbrev pub den : Lobby Value
den = record {
  lobby_id = "den";
  name = "Den";
  game_name = "motk";
  game_version = "1.0";
  disc_fp = "";
  host_player_id = "ann";
  host_bind = "";
  host_endpoint = "203.0.113.7:7777";
  lan_endpoints = [];
  guest_endpoint = "";
  password_hash = none;
  password_salt = none;
  max_slots = 2;
  session_id = 4;
  slots = some (sitting "ann" none none) ∷ some (sitting "bob" (some "direct") (some 50)) ∷ [];
  allow_spectators = true;
  spectators = some (sitting "cid" none none) ∷ none ∷ none ∷ none ∷ [];
  match_caps = some (field "relay" (text "host") (field "relay_via" (text "ice") blank));
  relay_host_player_id = "";
  started = false;
  automatch = false;
}

abbrev pair_only : Lobby Value
pair_only = record den { spectators = none ∷ none ∷ none ∷ none ∷ [] }

abbrev pub half_full : Lobby Value
half_full = record den { slots = some (sitting "ann" none none) ∷ none ∷ [] }

one_each : (x : String) → seated x den ≤ 1
one_each x = ground (
  arith,
  string_eq.equal_iff "ann" x,
  string_eq.equal_iff "bob" x,
  string_eq.equal_iff "cid" x,
  apart_names,
)
  where
    apart_names :
        ◌≢◌ {A = String} "ann" "bob" × ◌≢◌ {A = String} "ann" "cid" × ◌≢◌ {A = String} "bob" "cid"
    apart_names = (
      ground (arith, string_eq.equal_iff "ann" "bob"),
      ground (arith, string_eq.equal_iff "ann" "cid"),
      ground (arith, string_eq.equal_iff "bob" "cid"),
    )

den-IsValid : IsValid den
den-IsValid = record {
  slots_len = refl;
  slots_below = omega arith;
  gallery_len = refl;
  one_seat = one_each;
}

pair_only-IsValid : IsValid pair_only
pair_only-IsValid = record {
  slots_len = refl;
  slots_below = omega arith;
  gallery_len = refl;
  one_seat = λ x. ground (arith, one_each x);
}

half_full-IsValid : IsValid half_full
half_full-IsValid = record {
  slots_len = refl;
  slots_below = omega arith;
  gallery_len = refl;
  one_seat = λ x. ground (arith, one_each x);
}

abbrev afternoon : List (Request Value)
afternoon =
    moves "ann" 1 64
    ∷ seat_moves "cid" 65
    ∷ joins "dee" "Dee" "" ""
    ∷ answers "ann" true "dee"
    ∷ kicks "ann" 65
    ∷ leaves "dee"
    ∷ []

afternoon-Unseated : Unseated den afternoon
unfolding Unseated serve move seat_move seat seat_of clear_lobby_ice_paths unready_players trade put
afternoon-Unseated = (refl, tt)

serve_all-IsValid_example : IsValid (serve_all den afternoon)
serve_all-IsValid_example = serve_all-IsValid afternoon den afternoon-Unseated den-IsValid

-- Ann puts Bob into the gallery and Cid into his seat.
abbrev promoted : Lobby Value
promoted = clear_lobby_ice_paths (unready_players (trade den 1 64))

promotes : move den "ann" 1 64 ≡ changed promoted
unfolding move seat
promotes = refl

-- Bob goes to a free seat of the gallery.
abbrev watching : Lobby Value
watching =
    clear_lobby_ice_paths
      (unready_players (put (put den 1 none) 65 (some (sitting "bob" (some "direct") (some 50)))))

watches : seat_move den "bob" 65 ≡ changed watching
unfolding seat_move seat_of seat
watches = refl

abbrev evicted : Lobby Value
evicted = clear_lobby_ice_paths (unready_players (record (put den 1 none) { guest_endpoint = "" }))

evicts : kick den "ann" 1 ≡ changed evicted
unfolding kick seat
evicts = refl

swap_needs_no_request_example :
    (l' : Lobby Value) × (seat_swap_answer den "cid" true "bob" ≡ some (l', true))
    × ((n : ℕ) → holder l' n ≡ traded den 64 1 n)
swap_needs_no_request_example =
    swap_needs_no_request den "cid" "bob" 64 1 den-IsValid (unfold seat_of in refl)
      (unfold seat_of in refl) (omega arith)

abbrev with_dee : Lobby Value
with_dee =
    record (clear_lobby_ice_paths
      (unready_players (put half_full 1 (some (sitting "dee" none none))))) { guest_endpoint = "" }

dee_joins : seat_joiner half_full "dee" "dee" "" "" ≡ changed with_dee
unfolding seat_joiner free_seat player_count seat
dee_joins = refl

abbrev ready_to_go : Prepared
ready_to_go = record {
  session_id = 9;
  players = 2;
  host_spectates = false;
  transport = host;
  next_session = 10;
}

abbrev launched : Lobby Value
launched = commit_start values pair_only none 9

launches : handle_start values 60 pair_only "ann" none 9 ≡ starts (launched, ready_to_go)
unfolding handle_start prepare_start start_transport host_relay_decision sanitize_match_caps
    caps_relay_via_ice asks get_in player_count spectator_count relay_host seat_of
launches = refl

start_gate_example :
    (pair_only.host_player_id ≡ "ann")
    × (2 ≤ player_count pair_only)
    × (spectator_count pair_only ≡ 0)
    × (ready_to_go.host_spectates ≡ false)
    × Carried values 60 pair_only
        (or_else values (sanitize_match_caps values none) pair_only.match_caps)
        true
        ready_to_go.transport
start_gate_example =
    start_gate values 60 pair_only launched "ann" none 9 ready_to_go pair_only-IsValid launches

gallery_never_starts_example :
    handle_start values 60 den "ann" none 9
    ≡ stops (if ltb (player_count den) 2 then "need_players" else "relay_unavailable")
gallery_never_starts_example =
    gallery_never_starts values 60 den none 9 (unfold spectator_count in omega arith)
