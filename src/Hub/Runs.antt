-- ===== src/Hub/Runs.antt =====
-- Any sequence of creates, joins, kicks and departures keeps every client in one seat of one lobby at
-- most (src/ws_lobby.rs).
use recomp_net_server.Common.{
  ℕ, zero, suc, ◌≡◌, inl, inr, refl, ap, ◌∙◌, not, ◌&&◌, Option, some, List, [], ◌∷◌, String,
  if◌then◌else◌, string_eq, is_some, min, max, length, arith, Option-cases, Bool-cases,
}
use recomp_net_server.Common.Map
use recomp_net_server.Common.Map.{Values, Values-get, Values-insert, Values-remove}
use recomp_net_server.Lobby.{Lobby, joiner, leave_seat, kick, seat_joiner}
use recomp_net_server.Lobby.Seats.{seated, IsValid, length-set}
use recomp_net_server.Lobby.Changes.{leave-Keeps, kick-Keeps, Keeps-IsValid}
use recomp_net_server.Lobby.Roster.{reply-cases}
use recomp_net_server.Lobby.Joining.{seat_joiner_seats}
use recomp_net_server.Hub.{
  HubInner, Terms, empty_seats, hosted_lobby, lobby_of, create_refusal, insert_hosted,
  handle_create, handle_join, destroy_lobby, client_leave, handle_kick,
}
use recomp_net_server.Hub.Sessions.{leave_Seated}
use recomp_net_server.Hub.Seating.{is_in, seats_in, Seated, seated-hosted_lobby}
use recomp_net_server.Hub.Entries.{kick_Seated, create_Seated, join_Seated}

length-empty_seats : (V : Type 0) (n : ℕ) → length (empty_seats {V = V} n) ≡ n
length-empty_seats V zero = refl
length-empty_seats V (suc n) = ap suc (length-empty_seats V n)

module _ {V : Type 0} where
  hosted_lobby-IsValid :
      (lobby_id p d c : String) (n : ℕ) (t : Terms V) → IsValid (hosted_lobby lobby_id p d c n t)
  unfolding hosted_lobby
  hosted_lobby-IsValid lobby_id p d c n t = record {
    slots_len =
        length-set (empty_seats (max 2 (min t.max_slots 8))) 0 (some (joiner p d c))
        ∙ length-empty_seats V (max 2 (min t.max_slots 8));
    slots_below = omega arith;
    gallery_len = length-empty_seats V (if t.allow_spectators then 4 else 0);
    one_seat = λ x. ground (arith, seated-hosted_lobby lobby_id p d c x n t);
  }

-- The messages that seat and unseat clients, without those of the queue.
pub data Message (V : Type 0) : Type 0 where
  creates : (player_id lobby_id display_name country : String) → Terms V → Message V
  joins :
      (player_id lobby_id : String)
      → (gate : Option String) → (display_name country guest_endpoint : String) → Message V
  kicks : (player_id : String) → ℕ → Message V
  leaves : (player_id : String) → Message V

module _ {V : Type 0} where
  -- A message is read only from a connected client, and a new lobby gets an identifier that none has.
  unfoldable pub serve_message : HubInner V → Message V → HubInner V
  serve_message g (creates p lobby_id d c t) =
      if is_some (Map.get p g.clients) && not (is_some (Map.get lobby_id g.lobbies))
      then (handle_create g g p lobby_id d c t).0
      else g
  serve_message g (joins p lobby_id gate d c e) =
      if is_some (Map.get p g.clients) then (handle_join g p lobby_id (λ l. gate) d c e).0 else g
  serve_message g (kicks p n) = (handle_kick g p n).0
  serve_message g (leaves p) = client_leave g p

  unfoldable pub serve_messages : HubInner V → List (Message V) → HubInner V
  unfolding serve_message
  serve_messages g [] = g
  serve_messages g (m ∷ ms) = serve_messages (serve_message g m) ms

  -- Every lobby is well formed, and every seat is in the lobby that its client is recorded in.
  pub record IsSound (g : HubInner V) : Type 0 where
    pub seats : Seated g
    pub lobbies : Values IsValid g.lobbies

  create_Values :
      (g : HubInner V) (p lobby_id d c : String) (t : Terms V)
      → Values IsValid g.lobbies
      → Values IsValid (handle_create g g p lobby_id d c t).0.lobbies
  unfolding handle_create create_refusal insert_hosted
  create_Values g p lobby_id d c t v = ground (
    arith,
    Values-insert IsValid lobby_id (hosted_lobby lobby_id p d c g.next_session t) g.lobbies v
        (hosted_lobby-IsValid lobby_id p d c g.next_session t),
  )

  join_Values :
      (g : HubInner V) (p lobby_id : String) (gate : Lobby V → Option String) (d c e : String)
      → Seated g
      → Values IsValid g.lobbies
      → Values IsValid (handle_join g p lobby_id gate d c e).0.lobbies
  unfolding handle_join
  join_Values g p lobby_id gate d c e h v = elim (Option-cases (lobby_of g p)) [
    | inr (m, f) ↦ ground arith
    | inl f ↦ (elim (Option-cases (Map.get lobby_id g.lobbies)) [
      | inl at ↦ ground arith
      | inr (l, at) ↦ (elim (reply-cases (seat_joiner l p d c e)) [
        | inl (code, q) ↦ ground arith
        | inr (l', q) ↦
            (let unseated : seated p l ≡ 0 =
                omega
                  (arith, h p lobby_id, ap (λ o. seats_in o p) at, ap (λ o. is_in o lobby_id) f) in
              let valid =
                (seat_joiner_seats l l' p d c e p (Values-get IsValid lobby_id l g.lobbies v at)
                  unseated q).0 in
              ground (arith, Values-insert IsValid lobby_id l' g.lobbies v valid))
      ])
    ])
  ]

  kick_Values :
      (g : HubInner V) (p : String) (n : ℕ)
      → Values IsValid g.lobbies
      → Values IsValid (handle_kick g p n).0.lobbies
  unfolding handle_kick
  kick_Values g p n v = elim (Option-cases (lobby_of g p)) [
    | inl e ↦ ground arith
    | inr (lobby_id, e) ↦ (elim (Option-cases (Map.get lobby_id g.lobbies)) [
      | inl at ↦ ground arith
      | inr (l, at) ↦ (elim (reply-cases (kick l p n)) [
        | inl (code, k) ↦ ground arith
        | inr (l', k) ↦
            (let valid =
                Keeps-IsValid l l' (kick-Keeps l l' p n k)
                  (Values-get IsValid lobby_id l g.lobbies v at) in
              ground (arith, Values-insert IsValid lobby_id l' g.lobbies v valid))
      ])
    ])
  ]

  leave_Values :
      (g : HubInner V) (p : String)
      → Values IsValid g.lobbies
      → Values IsValid (client_leave g p).lobbies
  unfolding client_leave destroy_lobby
  leave_Values g p v = elim (Option-cases (lobby_of g p)) [
    | inl e ↦ ground arith
    | inr (lobby_id, e) ↦ (elim (Option-cases (Map.get lobby_id g.lobbies)) [
      | inl at ↦ ground arith
      | inr (l, at) ↦
          (let valid =
              Keeps-IsValid l (leave_seat l p) (leave-Keeps l p)
                (Values-get IsValid lobby_id l g.lobbies v at) in
            ground (
              arith,
              Values-insert IsValid lobby_id (leave_seat l p) g.lobbies v valid,
              Values-remove IsValid lobby_id g.lobbies v,
            ))
    ])
  ]

  serve_message-IsSound : (g : HubInner V) (m : Message V) → IsSound g → IsSound (serve_message g m)
  unfolding serve_message
  serve_message-IsSound g (creates p lobby_id d c t) s =
      elim (Bool-cases
        (is_some (Map.get p g.clients) && not (is_some (Map.get lobby_id g.lobbies)))) [
          | inr e ↦ rw e s
          | inl e ↦ rw e (record {
            seats = create_Seated g p lobby_id d c t s.seats (ground arith) (ground arith);
            lobbies = create_Values g p lobby_id d c t s.lobbies;
          })
        ]
  serve_message-IsSound g (joins p lobby_id gate d c e) s =
      elim (Bool-cases (is_some (Map.get p g.clients))) [
        | inr f ↦ rw f s
        | inl f ↦ rw f (record {
          seats = join_Seated g p lobby_id (λ l. gate) d c e s.seats s.lobbies f;
          lobbies = join_Values g p lobby_id (λ l. gate) d c e s.seats s.lobbies;
        })
      ]
  serve_message-IsSound g (kicks p n) s = record {
    seats = kick_Seated g p n s.seats;
    lobbies = kick_Values g p n s.lobbies;
  }
  serve_message-IsSound g (leaves p) s = record {
    seats = leave_Seated g p s.seats;
    lobbies = leave_Values g p s.lobbies;
  }

  -- If every lobby of a hub is well formed and every seat is in the lobby that its client is recorded in,
  -- the same holds after any creates, joins, kicks and departures, each handled to its end before
  -- the next: these messages alone never give a client a seat in two lobbies or two seats in one. The
  -- seating of a pair of the queue is not among them.
  pub serve_messages-IsSound :
      (ms : List (Message V)) (g : HubInner V) → IsSound g → IsSound (serve_messages g ms)
  unfolding serve_messages
  serve_messages-IsSound [] g s = s
  serve_messages-IsSound (m ∷ ms) g s =
      serve_messages-IsSound ms (serve_message g m) (serve_message-IsSound g m s)
