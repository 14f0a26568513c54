-- ===== src/Lobby/Consent.antt =====
-- Who may unseat or reseat whom (src/ws_lobby.rs, `handle_kick` and the seat swap).
use recomp_net_server.Common.{
  ℕ, ◌+◌, ◌≡◌, ◌≢◌, refl, ◌∙◌, inl, inr, true, none, some, String, if◌then◌else◌, ◌==◌, nat_eq,
  string_eq, arith, Option-cases, Bool-cases,
}
use recomp_net_server.Lobby.{
  Lobby, changed, crosses, seat, put, seat_of, trade, unready_players, clear_lobby_ice_paths, kick,
  seat_swap_answer,
}
use recomp_net_server.Lobby.Seats.{seated, IsValid, seated-put, seat_of-some}
use recomp_net_server.Lobby.Moves.{
  holder, traded, settled, seated-settled, holder-trade, holder-settled, holder-unready_players,
}

module _ {V : Type 0} where
  -- A kick that is not refused was asked for by the host, and takes one seat from one player, who is
  -- not the host; everybody else keeps its seats.
  pub kick_evicts :
      (l l' : Lobby V) (player_id x : String) (n : ℕ)
      → kick l player_id n ≡ changed l'
      → (victim : String) × (l.host_player_id ≡ player_id)
        × (holder l n ≡ some victim)
        × (victim ≢ l.host_player_id)
        × (seated x l' + (if victim == x then 1 else 0) ≡ seated x l)
  unfolding kick
  kick_evicts l l' player_id x n h = elim (Option-cases (seat l n)) [
    | inl e ↦ absurd (ground arith)
    | inr (none, e) ↦ absurd (ground arith)
    | inr (some s, e) ↦
        (let cleared : Lobby V = record (put l n none) { guest_endpoint = "" } in
          let same : l' ≡ settled cleared = ground arith in
          (
            s.player_id,
            ground (arith, string_eq.equal_iff l.host_player_id player_id),
            rw e refl,
            ground (arith, string_eq.equal_iff s.player_id l.host_player_id),
            rw same (omega (arith, seated-settled cleared x, seated-put x l n (some s) none e)),
          ))
  ]

  -- In a well-formed lobby, an answer that accepts makes the two players change places whenever
  -- both sit, in two seats; nobody else moves. The server keeps no requests, so the player that is
  -- named as the asker need not have asked.
  pub swap_needs_no_request :
      (l : Lobby V) (player_id asker : String) (mine theirs : ℕ)
      → IsValid l
      → seat_of l player_id ≡ some mine
      → seat_of l asker ≡ some theirs
      → mine ≢ theirs
      → (l' : Lobby V) × (seat_swap_answer l player_id true asker ≡ some (l', true))
        × ((n : ℕ) → holder l' n ≡ traded l mine theirs n)
  unfolding seat_swap_answer
  swap_needs_no_request l player_id asker mine theirs v e f ne =
      let (a, ea, _) = seat_of-some l player_id mine v e in
      let (b, eb, _) = seat_of-some l asker theirs v f in
      let swapped = unready_players (trade l mine theirs) in
      let places = λ (n : ℕ). holder-trade l mine theirs a b ne ea eb n in
      elim (Bool-cases (crosses mine theirs)) [
        | inl k ↦ (
          clear_lobby_ice_paths swapped,
          ground arith,
          λ n. holder-settled (trade l mine theirs) n ∙ places n,
        )
        | inr k ↦
            (swapped, ground arith, λ n. holder-unready_players (trade l mine theirs) n ∙ places n)
      ]
