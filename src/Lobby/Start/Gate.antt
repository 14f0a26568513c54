-- ===== src/Lobby/Start/Gate.antt =====
-- What a start that is let through guarantees (src/ws_lobby.rs).
use recomp_net_server.Common.{
  ℕ, suc, ◌+◌, ◌<◌, ◌≤◌, ◌≡◌, ◌≢◌, ◌⊎◌, inl, inr, refl, sym, ap, subst, ◌∙◌, Bool, true, false, not,
  ◌&&◌, Option, none, some, List, [], ◌∷◌, String, ltb, if◌then◌else◌, ◌==◌, nat_eq, string_eq, any,
  arith, Option-cases, Bool-cases, length, All, All-of_not_any, All-imp, ==_refl,
}
use recomp_net_server.External.{Json, JsonLaws}
use recomp_net_server.Lobby.{
  Slot, Lobby, flatten, write_each, unready, unready_players, relay_host, seat_of, spectator_count,
  player_count, position_from, seats_player,
}
use recomp_net_server.Lobby.Seats.{IsValid, seated, position_from-hit, seated-unready_players}
use recomp_net_server.Lobby.Start.{
  StartTransport, host, ice, Verdict, stops, starts, has_proof, asks, caps_relay_via_ice,
  host_relay_decision, start_transport, sanitize_match_caps, or_else, Prepared, sits_in_gallery,
  prepare_start, commit_start, handle_start, next_after, host_over_ice,
}

verdict-cases :
    {R : Type 0} → (v : Verdict R) → ((e : String) × (v ≡ stops e)) ⊎ ((r : R) × (v ≡ starts r))
verdict-cases (stops e) = inl (e, refl)
verdict-cases (starts r) = inr (r, refl)

module _ (j : Json) where
  -- The player's path to the relay host is direct, by a report of the last 120 seconds.
  unfoldable pub Direct : (now : ℕ) → Slot j.Value → Type 0
  Direct now s =
      (s.ice_path ≡ some "direct")
      × (at : ℕ) × (s.ice_path_at ≡ some at)
      × (now ≤ at + 120_000_000_000)

  has_proof-Direct : (now : ℕ) (s : Slot j.Value) → has_proof now s ≡ true → Direct now s
  unfolding Direct
  has_proof-Direct now s h = elim (Option-cases s.ice_path) [
    | inl gone ↦ absurd (ground (arith, h, gone))
    | inr (path, e) ↦ (elim (Option-cases s.ice_path_at) [
      | inl never ↦ absurd (ground (arith, h, never))
      | inr (at, f) ↦
          let said : path ≡ "direct" = ground (arith, h, e, string_eq.equal_iff path "direct") in
          (e ∙ ap (λ p. some p) said, at, f, ground (arith, h, f))
    ])
  ]

  -- The players that must have proven that they reach the relay host.
  abbrev pub Proven : (now : ℕ) → Lobby j.Value → Slot j.Value → Type 0
  Proven now l s = (s.player_id ≡ relay_host l) ⊎ Direct now s

  proven :
      (now : ℕ) (l : Lobby j.Value) (s : Slot j.Value)
      → (not (s.player_id == relay_host l) && not (has_proof now s)) ≡ false
      → Proven now l s
  proven now l s q = elim (Bool-cases (has_proof now s)) [
    | inl shown ↦ inr (has_proof-Direct now s shown)
    | inr unshown ↦ inl (ground (arith, q, unshown, string_eq.equal_iff s.player_id (relay_host l)))
  ]

  -- What stands behind each transport.
  abbrev pub Carried : (now : ℕ) → Lobby j.Value → Option j.Value → Bool → StartTransport → Type 0
  Carried now l caps allow_ice host =
      (asks j caps "relay" "host" ≡ true)
      × ((caps_relay_via_ice j caps ≡ true) ⊎ (l.host_endpoint ≢ ""))
      × (((caps_relay_via_ice j caps ≡ true) × (3 ≤ player_count l))
          ⊎ All (Proven now l) (flatten l.slots))
  Carried now l caps allow_ice ice = (allow_ice ≡ true) × (player_count l ≡ 2)

  relay_starts :
      (now : ℕ) (l : Lobby j.Value) (caps : Option j.Value) (allow_ice : Bool) (why : String)
      → host_relay_decision j now l caps ≡ starts why
      → (spectator_count l ≡ 0) × Carried now l caps allow_ice host
  unfolding host_relay_decision
  relay_starts now l caps allow_ice why h =
      let unproven =
        λ (s : Slot j.Value). not (s.player_id == relay_host l) && not (has_proof now s) in
      elim (Bool-cases (caps_relay_via_ice j caps && ltb 2 (player_count l))) [
        | inl e ↦ (
          ground arith,
          (
            ground arith,
            ground (arith, string_eq.equal_iff l.host_endpoint ""),
            inl (ground arith),
          ),
        )
        | inr e ↦
            (let clear : any unproven (flatten l.slots) ≡ false = ground arith in
              (
                ground arith,
                (
                  ground arith,
                  ground (arith, string_eq.equal_iff l.host_endpoint ""),
                  inr (
                      All-imp (λ (s : Slot j.Value). unproven s ≡ false) (Proven now l)
                        (flatten l.slots) (λ s q. proven now l s q)
                        (All-of_not_any unproven (flatten l.slots) clear)),
                ),
              ))
      ]

  transport_starts :
      (now : ℕ) (l : Lobby j.Value) (caps : Option j.Value) (allow_ice : Bool) (t : StartTransport)
      (why : String)
      → start_transport j now l caps allow_ice ≡ starts (t, why)
      → (spectator_count l ≡ 0) × Carried now l caps allow_ice t
  unfolding start_transport
  transport_starts now l caps allow_ice host why h =
      elim (verdict-cases (host_relay_decision j now l caps)) [
        | inl (e, k) ↦ absurd (ground arith)
        | inr (r, k) ↦ relay_starts now l caps allow_ice r k
      ]
  transport_starts now l caps allow_ice ice why h =
      elim (verdict-cases (host_relay_decision j now l caps)) [
        | inl (e, k) ↦ (ground arith, (ground arith, ground arith))
        | inr (r, k) ↦ absurd (ground arith)
      ]

  no_position :
      (x : String) (i : ℕ) (cells : List (Option (Slot j.Value)))
      → length (flatten cells) ≡ 0
      → position_from (seats_player x) i cells ≡ none
  no_position x i [] h = refl
  no_position x i (none ∷ cells) h = no_position x (suc i) cells h
  no_position x i (some s ∷ cells) h = absurd (ground arith)

  not_in_gallery :
      (l : Lobby j.Value) (x : String)
      → IsValid l
      → spectator_count l ≡ 0
      → sits_in_gallery j l (some x) ≡ false
  unfolding seat_of spectator_count
  not_in_gallery l x v h = elim (Option-cases (position_from (seats_player x) 0 l.slots)) [
    | inl e ↦ ground (arith, no_position x 0 l.spectators h)
    | inr (i, e) ↦
        (let (k, c, p, q, r, b) = position_from-hit (seats_player x) 0 l.slots i e in
          ground (arith, v.slots_len, v.slots_below))
  ]

  prepare_starts :
      (now : ℕ) (l : Lobby j.Value) (caps : Option j.Value) (initiator : Option String)
      (allow_ice : Bool) (n : ℕ) (q : Prepared)
      → prepare_start j now l caps initiator allow_ice n ≡ starts q
      → (2 ≤ player_count l)
        × (spectator_count l ≡ 0)
        × Carried now l (or_else j caps l.match_caps) allow_ice q.transport
        × (q.host_spectates ≡ sits_in_gallery j l initiator)
        × (q.session_id ≡ n)
        × (q.next_session ≡ next_after n)
  unfolding prepare_start
  prepare_starts now l caps initiator allow_ice n q h =
      elim (verdict-cases (start_transport j now l (or_else j caps l.match_caps) allow_ice)) [
        | inl (e, k) ↦ absurd (ground arith)
        | inr ((t, why), k) ↦
            (let (g, c) = transport_starts now l (or_else j caps l.match_caps) allow_ice t why k in
              let same : t ≡ q.transport = ground arith in
              (
                ground arith,
                g,
                subst (λ m. Carried now l (or_else j caps l.match_caps) allow_ice m) same c,
                ground arith,
                ground arith,
                ground arith,
              ))
      ]

  -- A start of a well-formed lobby that is let through was asked for by the host, with at least
  -- two players seated and nobody in the gallery, so the host never watches its own match; its
  -- transport has what it needs: the host relay an ask for it, an endpoint or ICE, and a fresh
  -- proof of every other player (or ICE with three players or more), and plain ICE exactly two
  -- players.
  pub start_gate :
      (now : ℕ) (l l' : Lobby j.Value) (player_id : String) (raw_caps : Option j.Value) (n : ℕ)
      (q : Prepared)
      → IsValid l
      → handle_start j now l player_id raw_caps n ≡ starts (l', q)
      → (l.host_player_id ≡ player_id)
        × (2 ≤ player_count l)
        × (spectator_count l ≡ 0)
        × (q.host_spectates ≡ false)
        × Carried now l (or_else j (sanitize_match_caps j raw_caps) l.match_caps) true q.transport
  unfolding handle_start
  start_gate now l l' player_id raw_caps n q v h =
      let fresh = sanitize_match_caps j raw_caps in
      elim (verdict-cases (prepare_start j now l fresh (some player_id) true n)) [
        | inl (e, k) ↦ absurd (ground arith)
        | inr (r, k) ↦
            (let (a, b, c, d, e, f) = prepare_starts now l fresh (some player_id) true n r k in
              let same : r ≡ q = ground arith in
              (
                ground (arith, string_eq.equal_iff l.host_player_id player_id),
                a,
                b,
                ground (
                  arith,
                  not_in_gallery l player_id v b,
                  ap (λ (m : Prepared). m.host_spectates) same,
                ),
                subst
                    (λ (m : Prepared).
                      Carried now l (or_else j fresh l.match_caps) true m.transport)
                    same c,
              ))
      ]

  -- A lobby with somebody in its gallery never starts, whatever its host asks for.
  pub gallery_never_starts :
      (now : ℕ) (l : Lobby j.Value) (raw_caps : Option j.Value) (n : ℕ)
      → spectator_count l ≢ 0
      → handle_start j now l l.host_player_id raw_caps n
        ≡ stops (if ltb (player_count l) 2 then "need_players" else "relay_unavailable")
  unfolding handle_start prepare_start
  gallery_never_starts now l raw_caps n h =
      let caps = or_else j (sanitize_match_caps j raw_caps) l.match_caps in
      elim (verdict-cases (start_transport j now l caps true)) [
        | inl (e, k) ↦ ground (arith, ==_refl l.host_player_id)
        | inr ((t, why), k) ↦ absurd (h (transport_starts now l caps true t why k).0)
      ]

  unready_all :
      (cells : List (Option (Slot j.Value)))
      → any (λ (s : Slot j.Value). s.ready) (flatten (write_each unready cells)) ≡ false
  unready_all [] = refl
  unready_all (none ∷ cells) = unready_all cells
  unready_all (some s ∷ cells) = unready_all cells

  -- What a start that is let through leaves behind: the lobby is started under the session number
  -- that the hub gave out, no player is ready, everybody keeps their seats, and, while that number
  -- is below the largest `u32`, the hub's next number is a larger one.
  pub start_commits :
      (now : ℕ) (l l' : Lobby j.Value) (player_id x : String) (raw_caps : Option j.Value) (n : ℕ)
      (q : Prepared)
      → n < 4_294_967_295
      → handle_start j now l player_id raw_caps n ≡ starts (l', q)
      → (l'.started ≡ true)
        × (l'.session_id ≡ n)
        × (n < q.next_session)
        × (any (λ (s : Slot j.Value). s.ready) (flatten l'.slots) ≡ false)
        × (seated x l' ≡ seated x l)
  unfolding handle_start commit_start unready_players
  start_commits now l l' player_id x raw_caps n q small h =
      let fresh = sanitize_match_caps j raw_caps in
      elim (verdict-cases (prepare_start j now l fresh (some player_id) true n)) [
        | inl (e, k) ↦ absurd (ground arith)
        | inr (r, k) ↦
            (let (a, b, c, d, e, f) = prepare_starts now l fresh (some player_id) true n r k in
              let same : l' ≡ commit_start j l fresh r.session_id = ground arith in
              let kept : Lobby j.Value = record l {
                match_caps = or_else j fresh l.match_caps;
                session_id = r.session_id;
                started = true;
              } in
              let same_q : r ≡ q = ground arith in
              (
                rw same refl,
                rw same e,
                rw (sym same_q) (omega (arith, f)),
                rw same (unready_all l.slots),
                rw same (seated-unready_players x kept),
              ))
      ]

module _ (j : Json) (laws : JsonLaws j) where
  -- Caps that pass `sanitize_match_caps` ask for the host relay over ICE, whatever the host sent.
  pub sanitize_match_caps_lem :
      (raw caps : j.Value)
      → sanitize_match_caps j (some raw) ≡ some caps
      → caps_relay_via_ice j (some caps) ≡ true
  unfolding sanitize_match_caps caps_relay_via_ice asks
  sanitize_match_caps_lem raw caps h =
      let o : j.is_object raw ≡ true = ground arith in
      let asked = j.set_field raw "relay" (j.from_str "host") in
      let same : caps ≡ host_over_ice j raw = ground arith in
      let via =
        laws.get-set_self asked (j.from_str "ice") "relay_via"
          (laws.set_is_object raw (j.from_str "host") "relay" o) in
      let relay =
        laws.get-set_ne asked (j.from_str "ice") "relay_via" "relay"
          (laws.set_is_object raw (j.from_str "host") "relay" o) other_key
        ∙ laws.get-set_self raw (j.from_str "host") "relay" o in
      rw same (rw (relay, via, laws.as_str-from_str "host", laws.as_str-from_str "ice", asks) refl)
    where
      other_key : ◌≢◌ {A = String} "relay_via" "relay"
      other_key = ground (arith, string_eq.equal_iff "relay_via" "relay")
