-- ===== src/Lobby/Start.antt =====
-- Whether a lobby may start, on which transport, and what the start leaves behind: `host_relay_decision`,
-- `start_transport`, `handle_start` and `start_lobby` of src/ws_lobby.rs.
pub mod Gate
use recomp_net_server.Common.{
  ℕ, ◌+◌, ◌-◌, min, Bool, true, false, not, ◌&&◌, ◌||◌, Option, none, some, List, [], ◌∷◌, String,
  leb, ltb, if◌then◌else◌, ◌==◌, nat_eq, string_eq, any, is_some,
}
use recomp_net_server.External.{Json}
use recomp_net_server.Lobby.{
  Slot, Lobby, flatten, write_each, unready, unready_players, relay_host, seat_of, spectator_count,
  player_count, is_gallery,
}

-- `HOST_RELAY_PATH_FRESH`, 120 seconds.
abbrev pub host_relay_path_fresh : ℕ
host_relay_path_fresh = 120_000_000_000

pub data StartTransport : Type 0 where
  host ice : StartTransport

-- A refusal with its reason, or what comes of a start.
pub data Verdict (R : Type 0) : Type 0 where
  stops : String → Verdict R
  starts : R → Verdict R

abbrev pub has_text : String → Option String → Bool
has_text word none = false
has_text word (some s) = s == word

abbrev is_fresh : (now : ℕ) → Option ℕ → Bool
is_fresh now none = false
is_fresh now (some at) = leb (now - at) host_relay_path_fresh

module _ {V : Type 0} where
  -- The player reported "direct" within the time that counts.
  abbrev pub has_proof : (now : ℕ) → Slot V → Bool
  has_proof now s = has_text "direct" s.ice_path && is_fresh now s.ice_path_at

-- `u32::saturating_add(1)`
abbrev pub next_after : ℕ → ℕ
next_after n = min (n + 1) 4_294_967_295

-- The first phase of `start_lobby`: the session number, the number of players, whether the host
-- watches from the gallery, and the transport; with the hub's next session number.
pub record Prepared : Type 0 where
  pub session_id : ℕ
  pub players : ℕ
  pub host_spectates : Bool
  pub transport : StartTransport
  pub next_session : ℕ

module _ (j : Json) where
  -- A setting of the caps that is the text `word`.
  unfoldable pub asks : Option j.Value → String → String → Bool
  asks none key word = false
  asks (some c) key word = elim (j.get_field c key) [
    | none ↦ false
    | some v ↦ has_text word (j.as_str v)
  ]

  unfoldable pub caps_relay_via_ice : Option j.Value → Bool
  caps_relay_via_ice caps = asks caps "relay" "host" && asks caps "relay_via" "ice"

  unfoldable pub host_relay_decision : (now : ℕ) → Lobby j.Value → Option j.Value → Verdict String
  host_relay_decision now l caps =
      if not (asks caps "relay" "host")
      then stops "no_host_relay_ask"
      else if l.host_endpoint == "" && not (caps_relay_via_ice caps)
      then stops "host_relay_no_endpoint"
      else if ltb 0 (spectator_count l)
      then stops "host_relay_spectators"
      else if caps_relay_via_ice caps && ltb 2 (player_count l)
      then starts "host_relay"
      else if any (λ (s : Slot j.Value). not (s.player_id == relay_host l) && not (has_proof now s))
          (flatten l.slots)
      then stops "host_relay_unproven"
      else starts "host_relay"

  unfoldable pub start_transport :
      (now : ℕ)
      → Lobby j.Value
      → Option j.Value
      → (allow_ice : Bool) → Verdict (StartTransport × String)
  start_transport now l caps allow_ice = elim (host_relay_decision now l caps) [
    | starts why ↦ starts (host, why)
    | stops why ↦
        if not allow_ice || ltb 0 (spectator_count l)
        then stops why
        else if not (player_count l == 2)
        then stops "ice_needs_two_players"
        else starts (ice, why)
  ]

  -- Every object is put on the host relay over ICE before its size is checked.
  abbrev pub host_over_ice : j.Value → j.Value
  host_over_ice v =
      j.set_field (j.set_field v "relay" (j.from_str "host")) "relay_via" (j.from_str "ice")

  unfoldable pub sanitize_match_caps : Option j.Value → Option j.Value
  sanitize_match_caps none = none
  sanitize_match_caps (some v) =
      if not (j.is_object v)
      then none
      else if ltb 4096 (j.printed_len (host_over_ice v))
      then none
      else some (host_over_ice v)

  abbrev pub or_else : Option j.Value → Option j.Value → Option j.Value
  or_else none d = d
  or_else (some v) d = some v

  abbrev pub sits_in_gallery : Lobby j.Value → Option String → Bool
  sits_in_gallery l none = false
  sits_in_gallery l (some p) = is_gallery (seat_of l p)

  unfoldable pub prepare_start :
      (now : ℕ)
      → Lobby j.Value
      → (fresh_caps : Option j.Value) → (initiator : Option String) → (allow_ice : Bool)
      → (next_session : ℕ) → Verdict Prepared
  prepare_start now l fresh_caps initiator allow_ice next_session =
      if ltb (player_count l) 2
      then stops "need_players"
      else elim (start_transport now l (or_else fresh_caps l.match_caps) allow_ice) [
        | stops why ↦ stops "relay_unavailable"
        | starts (transport, why) ↦ starts (record {
          session_id = next_session;
          players = player_count l;
          host_spectates = sits_in_gallery l initiator;
          transport = transport;
          next_session = next_after next_session;
        })
      ]

  -- The last phase, which takes the hub's lock again.
  unfoldable pub commit_start :
      Lobby j.Value → (fresh_caps : Option j.Value) → (session_id : ℕ) → Lobby j.Value
  commit_start l fresh_caps session_id = unready_players (record l {
    match_caps = or_else fresh_caps l.match_caps;
    session_id = session_id;
    started = true;
  })

  -- `handle_start` on a lobby that nobody changes between the phases.
  unfoldable pub handle_start :
      (now : ℕ)
      → Lobby j.Value
      → (player_id : String) → (raw_caps : Option j.Value) → (next_session : ℕ)
      → Verdict (Lobby j.Value × Prepared)
  handle_start now l player_id raw_caps next_session =
      let fresh_caps = sanitize_match_caps raw_caps in
      if not (l.host_player_id == player_id)
      then stops "not_host"
      else elim (prepare_start now l fresh_caps (some player_id) true next_session) [
        | stops code ↦ stops code
        | starts p ↦ starts (commit_start l fresh_caps p.session_id, p)
      ]
