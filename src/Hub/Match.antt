-- ===== src/Hub/Match.antt =====
-- The lobby that `form_match` of src/ws_lobby.rs makes of an accepted offer, and the seating of the pair.
use recomp_net_server.Common.{
  ℕ, zero, suc, ◌+◌, ◌≤◌, ◌≡◌, inl, inr, refl, ap, subst, min, set, true, false, not, ◌||◌, Option,
  none, some, [], String, leb, length, if◌then◌else◌, ◌==◌, string_eq, is_some, arith, Bool-cases,
  ==_refl,
}
use recomp_net_server.Common.Map
use recomp_net_server.Lobby.{Slot, Lobby, joiner}
use recomp_net_server.Lobby.Seats.{tally, seated}
use recomp_net_server.Hub.{HubInner, empty_seats, max_lobbies, lobby_of, with_client_in}
use recomp_net_server.Hub.Seating.{seats_in, seats_at, lobby_of-with_client_in}

-- What the lobby takes of the offer, of its ruleset and of the two clients. `relay_player_id` is the player
-- that runs the relay, `host_endpoint` its endpoint, or the empty text over ICE.
pub record Match (V : Type 0) : Type 0 where
  pub label : String
  pub game_name : String
  pub game_version : String
  pub disc_fp : String
  pub max_slots : ℕ
  pub floored_caps : V
  pub a : String
  pub b : String
  pub a_handle : String
  pub b_handle : String
  pub a_country : String
  pub b_country : String
  pub host_bind : String
  pub relay_player_id : String
  pub host_endpoint : String
  pub guest_endpoint : String

module _ {V : Type 0} where
  abbrev pub matched : (player_id handle country : String) → Slot V
  matched player_id handle country = record (joiner player_id handle country) { ready = true }

  abbrev pub pair_of : Match V → Option (Slot V) × Option (Slot V)
  pair_of m = (some (matched m.a m.a_handle m.a_country), some (matched m.b m.b_handle m.b_country))

  -- Nobody is its host.
  unfoldable pub match_lobby : (lobby_id : String) → (session_id : ℕ) → Match V → Lobby V
  match_lobby lobby_id session_id m = record {
    lobby_id = lobby_id;
    name = m.label;
    game_name = m.game_name;
    game_version = m.game_version;
    disc_fp = m.disc_fp;
    host_player_id = "";
    host_bind = m.host_bind;
    host_endpoint = m.host_endpoint;
    lan_endpoints = [];
    guest_endpoint = m.guest_endpoint;
    password_hash = none;
    password_salt = none;
    max_slots = m.max_slots;
    session_id = session_id;
    slots = set (set (empty_seats m.max_slots) 0 (pair_of m).0) 1 (pair_of m).1;
    allow_spectators = false;
    spectators = [];
    match_caps = some m.floored_caps;
    relay_host_player_id = m.relay_player_id;
    started = false;
    automatch = true;
  }

  -- The hub after the section of `form_match` under its lock, and the reason that sends the pair away.
  unfoldable pub seat_match :
      HubInner V → (lobby_id : String) → Match V → HubInner V × Option String
  seat_match g lobby_id m =
      if leb max_lobbies (length g.lobbies)
      then (g, some "lobby_limit")
      else if not (is_some (Map.get m.a g.clients)) || not (is_some (Map.get m.b g.clients))
      then (g, some "peer_left")
      else (
        with_client_in (some lobby_id) m.b (
            with_client_in (some lobby_id) m.a (record g {
              lobbies = Map.insert lobby_id (match_lobby lobby_id g.next_session m) g.lobbies;
              next_session = min (g.next_session + 1) 4_294_967_295;
            })),
        none,
      )

  tally-pair :
      (x : String) (n : ℕ) (s t : Slot V)
      → 2 ≤ n
      → s.player_id ≡ x
      → 1 ≤ tally x (set (set (empty_seats n) 0 (some s)) 1 (some t))
  tally-pair x zero s t h e = absurd (omega arith)
  tally-pair x (suc zero) s t h e = absurd (omega arith)
  tally-pair x (suc (suc n)) s t h e = ground (arith, string_eq.equal_iff s.player_id x, e)

  seated-match_lobby :
      (lobby_id : String) (n : ℕ) (m : Match V)
      → 2 ≤ m.max_slots
      → 1 ≤ seated m.a (match_lobby lobby_id n m)
  unfolding match_lobby
  seated-match_lobby lobby_id n m h = omega (
    arith,
    tally-pair m.a m.max_slots (matched m.a m.a_handle m.a_country)
        (matched m.b m.b_handle m.b_country) h refl,
  )

  other_lobby :
      (g : HubInner V) (x old lobby_id : String)
      → Map.get lobby_id g.lobbies ≡ none
      → 1 ≤ seats_at g x old
      → (lobby_id == old) ≡ false
  other_lobby g x old lobby_id fresh held = elim (Bool-cases (lobby_id == old)) [
    | inr apart ↦ apart
    | inl same ↦
        let gone : Map.get old g.lobbies ≡ none =
          subst (λ k. Map.get k g.lobbies ≡ none) {x = lobby_id} {y = old}
            ((string_eq.equal_iff lobby_id old).0 same) fresh in
        absurd (omega (arith, held, ap (λ o. seats_in o x) gone))
  ]

  -- Below the limit of lobbies, with both players of the pair connected, a ruleset of two seats at least and
  -- a new lobby id: if the first player of the pair sits in a lobby, `form_match` seats it in the match's
  -- lobby too and the hub records only that one, so it has a seat in both and the old one is forgotten.
  pub seat_match_double :
      (g : HubInner V) (old lobby_id : String) (m : Match V)
      → length g.lobbies ≤ 63
      → Map.get lobby_id g.lobbies ≡ none
      → is_some (Map.get m.a g.clients) ≡ true
      → is_some (Map.get m.b g.clients) ≡ true
      → 2 ≤ m.max_slots
      → 1 ≤ seats_at g m.a old
      → let g' = (seat_match g lobby_id m).0 in
        (1 ≤ seats_at g' m.a old)
        × (1 ≤ seats_at g' m.a lobby_id)
        × ((lobby_id == old) ≡ false)
        × (lobby_of g' m.a ≡ some lobby_id)
  unfolding seat_match
  seat_match_double g old lobby_id m few fresh ca cb two held =
      let room : leb max_lobbies (length g.lobbies) ≡ false = ground (arith, few) in
      let apart = other_lobby g m.a old lobby_id fresh held in
      let l = match_lobby lobby_id g.next_session m in
      let g1 : HubInner V = record g {
        lobbies = Map.insert lobby_id l g.lobbies;
        next_session = min (g.next_session + 1) 4_294_967_295;
      } in
      let one = lobby_of-with_client_in g1 (some lobby_id) m.a m.a in
      let two' =
        lobby_of-with_client_in (with_client_in (some lobby_id) m.a g1) (some lobby_id) m.b m.a in
      rw (room, ca, cb)
        (
          rw (Map.get-insert lobby_id old l g.lobbies, apart) held,
          rw (Map.get-insert_self lobby_id l g.lobbies)
              (seated-match_lobby lobby_id g.next_session m two),
          apart,
          ground (arith, one, two', ca, ==_refl m.a),
        )
