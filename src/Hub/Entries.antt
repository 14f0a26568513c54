-- ===== src/Hub/Entries.antt =====
-- Who sits where after a create, a join or a kick (src/ws_lobby.rs).
use recomp_net_server.Common.{
  ℕ, ◌+◌, ◌≤◌, ◌≡◌, inl, inr, refl, sym, ap, subst, true, Option, none, some, String, if◌then◌else◌,
  ◌==◌, string_eq, is_some, min, arith, Option-cases, ==_refl,
}
use recomp_net_server.Common.Map
use recomp_net_server.Common.Map.{Values, Values-get, Values-insert, Values-remove}
use recomp_net_server.Lobby.{Slot, Lobby, changed, kick, seat, occupant, seat_joiner}
use recomp_net_server.Lobby.Seats.{seated, IsValid}
use recomp_net_server.Lobby.Roster.{reply-cases}
use recomp_net_server.Lobby.Joining.{seat_joiner_seats}
use recomp_net_server.Lobby.Moves.{id_in}
use recomp_net_server.Lobby.Consent.{kick_evicts}
use recomp_net_server.Hub.{
  HubInner, Terms, hosted_lobby, lobby_of, with_client_in, create_refusal, insert_hosted,
  handle_create, handle_join, victim_of, handle_kick,
}
use recomp_net_server.Hub.Sessions.{is_in-some}
use recomp_net_server.Hub.Seating.{
  one_if, is_in, seats_in, seats_at, Seated, seated-hosted_lobby, place_Seated, unseat_Seated,
}

module _ {V : Type 0} where
  pub kick_Seated : (g : HubInner V) (p : String) (n : ℕ) → Seated g → Seated (handle_kick g p n).0
  unfolding handle_kick
  kick_Seated g p n h = elim (Option-cases (lobby_of g p)) [
    | inl e ↦ subst Seated {x = g} {y = (handle_kick g p n).0} (rw (e, handle_kick) refl) h
    | inr (lobby_id, e) ↦ (elim (Option-cases (Map.get lobby_id g.lobbies)) [
      | inl at ↦ subst Seated {x = g} {y = (handle_kick g p n).0} (rw (e, handle_kick, at) refl) h
      | inr (l, at) ↦ (elim (reply-cases (kick l p n)) [
        | inl (code, k) ↦
            subst Seated {x = g} {y = (handle_kick g p n).0} (rw (e, handle_kick, at, k) refl) h
        | inr (l', k) ↦
            subst Seated
              {x = with_client_in none (victim_of (occupant (seat l n)))
                (record g { lobbies = Map.insert lobby_id l' g.lobbies })}
              {y = (handle_kick g p n).0} (rw (e, handle_kick, at, k) refl) (out lobby_id l l' at k)
      ])
    ])
  ]
    where
      same_victim :
          (c : Option (Option (Slot V))) (v : String)
          → id_in c ≡ some v
          → victim_of (occupant c) ≡ v
      same_victim none v q = absurd (ground arith)
      same_victim (some none) v q = absurd (ground arith)
      same_victim (some (some s)) v q = ground arith

      kicked_le :
          (x lobby_id : String) (l l' : Lobby V)
          → Map.get lobby_id g.lobbies ≡ some l
          → kick l p n ≡ changed l'
          → seated x l' ≤ seats_at g x lobby_id
      kicked_le x lobby_id l l' at k =
          let (v, host, held, other, fewer) = kick_evicts l l' p x n k in
          omega (arith, fewer, ap (λ o. seats_in o x) at)

      out :
          (lobby_id : String) (l l' : Lobby V)
          → Map.get lobby_id g.lobbies ≡ some l
          → kick l p n ≡ changed l'
          → Seated (
              with_client_in none
                (victim_of (occupant (seat l n)))
                (record g { lobbies = Map.insert lobby_id l' g.lobbies }))
      out lobby_id l l' at k =
          let (v, host, held, other, fewer) =
            kick_evicts l l' p (victim_of (occupant (seat l n))) n k in
          let who = same_victim (seat l n) v held in
          let mine : one_if (v == victim_of (occupant (seat l n))) ≡ 1 =
            ap one_if ((string_eq.equal_iff v (victim_of (occupant (seat l n)))).1 (sym who)) in
          let w = victim_of (occupant (seat l n)) in
          let bound : seated w l ≤ is_in (lobby_of g w) lobby_id =
            omega (arith, h w lobby_id, ap (λ o. seats_in o w) at) in
          let home : lobby_of g w ≡ some lobby_id =
            is_in-some (lobby_of g w) lobby_id (omega (arith, bound, fewer, mine)) in
          unseat_Seated g w lobby_id l' h (inl home) (λ x. kicked_le x lobby_id l l' at k)
            (omega (
              arith,
              bound,
              fewer,
              mine,
              ap (λ o. is_in o lobby_id) home,
              ap one_if (==_refl lobby_id),
            ))

  insert_hosted_Seated :
      (g : HubInner V) (p lobby_id d c : String) (t : Terms V)
      → Seated g
      → is_some (Map.get p g.clients) ≡ true
      → lobby_of g p ≡ none
      → Seated (insert_hosted g p lobby_id d c t)
  unfolding insert_hosted
  insert_hosted_Seated g p lobby_id d c t h here e =
      place_Seated g p lobby_id (hosted_lobby lobby_id p d c g.next_session t)
        (min (g.next_session + 1) 4_294_967_295) h here e
        (λ x. omega (arith, seated-hosted_lobby lobby_id p d c x g.next_session t))

  pub create_Seated :
      (g : HubInner V) (p lobby_id d c : String) (t : Terms V)
      → Seated g
      → is_some (Map.get p g.clients) ≡ true
      → Map.get lobby_id g.lobbies ≡ none
      → Seated (handle_create g g p lobby_id d c t).0
  unfolding handle_create create_refusal
  create_Seated g p lobby_id d c t h here fresh = elim (Option-cases (create_refusal g p)) [
    | inr (code, e) ↦
        subst Seated {x = g} {y = (handle_create g g p lobby_id d c t).0}
          (rw (handle_create, e) refl) h
    | inl e ↦
        (let home : lobby_of g p ≡ none = ground (arith, e) in
          subst Seated {x = insert_hosted g p lobby_id d c t}
            {y = (handle_create g g p lobby_id d c t).0} (rw (handle_create, e) refl)
            (insert_hosted_Seated g p lobby_id d c t h here home))
  ]

  pub join_Seated :
      (g : HubInner V) (p lobby_id : String) (gate : Lobby V → Option String) (d c e : String)
      → Seated g
      → Values IsValid g.lobbies
      → is_some (Map.get p g.clients) ≡ true
      → Seated (handle_join g p lobby_id gate d c e).0
  unfolding handle_join
  join_Seated g p lobby_id gate d c e h v here = elim (Option-cases (lobby_of g p)) [
    | inr (m, f) ↦ same (rw (f, handle_join) refl)
    | inl f ↦ (elim (Option-cases (Map.get lobby_id g.lobbies)) [
      | inl at ↦ same (rw (f, handle_join, at) refl)
      | inr (l, at) ↦ (elim (Option-cases (gate l)) [
        | inr (code, k) ↦ same (rw (f, handle_join, at, k) refl)
        | inl k ↦ (elim (reply-cases (seat_joiner l p d c e)) [
          | inl (code, q) ↦ same (rw (f, handle_join, at, k, q) refl)
          | inr (l', q) ↦
              subst Seated
                {x = with_client_in (some lobby_id) p (record {
                  clients = g.clients;
                  lobbies = Map.insert lobby_id l' g.lobbies;
                  next_session = g.next_session;
                })}
                {y = (handle_join g p lobby_id gate d c e).0} (rw (f, handle_join, at, k, q) refl)
                (place_Seated g p lobby_id l' g.next_session h here f (joined f l l' at q))
        ])
      ])
    ])
  ]
    where
      same :
          g ≡ (handle_join g p lobby_id gate d c e).0
          → Seated (handle_join g p lobby_id gate d c e).0
      same q = subst Seated {x = g} {y = (handle_join g p lobby_id gate d c e).0} q h

      joined :
          lobby_of g p ≡ none
          → (l l' : Lobby V) → Map.get lobby_id g.lobbies ≡ some l
          → seat_joiner l p d c e ≡ changed l'
          → (x : String) → seated x l' ≤ seats_at g x lobby_id + (if p == x then 1 else 0)
      joined f l l' at q x =
          let unseated : seated p l ≡ 0 =
            omega (arith, h p lobby_id, ap (λ o. seats_in o p) at, ap (λ o. is_in o lobby_id) f) in
          omega (
            arith,
            (seat_joiner_seats l l' p d c e x (Values-get IsValid lobby_id l g.lobbies v at)
                unseated q).1,
            ap (λ o. seats_in o x) at,
          )
