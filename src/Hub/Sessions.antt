-- ===== src/Hub/Sessions.antt =====
-- What a departure does to the record of who sits where (src/ws_lobby.rs, `client_leave` and `destroy_lobby`).
use recomp_net_server.Common.{
  ◌≤◌, ◌≡◌, ◌⊎◌, inl, inr, refl, ap, ◌∙◌, subst, true, ◌||◌, Option, none, some, List, [], ◌∷◌,
  ◌++◌, map, String, if◌then◌else◌, ◌==◌, string_eq, contains, arith, Option-cases, Bool-cases,
  ==_refl,
}
use recomp_net_server.Common.Map
use recomp_net_server.Lobby.{Slot, Lobby, flatten, everyone, member_ids, leave_closes, leave_seat}
use recomp_net_server.Lobby.Seats.{tally, seated}
use recomp_net_server.Lobby.Changes.{leave_seat_empties}
use recomp_net_server.Hub.{
  ClientMeta, HubInner, own_lobby, write_client, sit_in, clear_members, lobby_of, with_client_in,
  destroy_lobby, client_leave,
}
use recomp_net_server.Hub.Seating.{
  is_in, seats_in, seats_at, Seated, lobby_of-with_client_in, Shrinks, Shrinks-Seated, elsewhere,
  unseat_Seated,
}

own_lobby-write_client :
    (p x : String) (clients : List (String × ClientMeta))
    → own_lobby (Map.get x (write_client (sit_in none) p clients))
      ≡ (if p == x then none else own_lobby (Map.get x clients))
own_lobby-write_client p x clients = elim (Option-cases (Map.get p clients)) [
  | inl e ↦
      rw (e, write_client) (ground (arith, string_eq.equal_iff p x, ap (λ y. Map.get y clients)))
  | inr (c, e) ↦
      rw (e, write_client)
        (ground (arith, Map.get-insert p x (record c { lobby_id = none }) clients))
]

own_lobby-clear_members :
    (x : String) (ms : List String) (clients : List (String × ClientMeta))
    → own_lobby (Map.get x (clear_members ms clients))
      ≡ (if contains ms x then none else own_lobby (Map.get x clients))
unfolding clear_members
own_lobby-clear_members x [] clients = refl
own_lobby-clear_members x (m ∷ ms) clients = ground (
  arith,
  own_lobby-clear_members x ms (write_client (sit_in none) m clients),
  own_lobby-write_client m x clients,
)

pub is_in-some : (o : Option String) (m : String) → 1 ≤ is_in o m → o ≡ some m
is_in-some none m h = absurd (omega arith)
is_in-some (some k) m h = ap some (ground (arith, string_eq.equal_iff k m))

module _ {V : Type 0} where
  contains-flatten :
      (x : String) (cells : List (Option (Slot V)))
      → contains (map (λ (s : Slot V). s.player_id) (flatten cells)) x ≡ true
      → 1 ≤ tally x cells
  contains-flatten x [] h = absurd (ground arith)
  contains-flatten x (none ∷ cells) h = omega (arith, contains-flatten x cells h)
  contains-flatten x (some s ∷ cells) h = ground (arith, contains-flatten x cells)

  contains-append :
      (x : String) (ss ts : List (Slot V))
      → contains (map (λ (s : Slot V). s.player_id) (ss ++ ts)) x ≡ (
          contains (map (λ (s : Slot V). s.player_id) ss) x
          || contains (map (λ (s : Slot V). s.player_id) ts) x)
  contains-append x [] ts = refl
  contains-append x (s ∷ ss) ts = ground (arith, contains-append x ss ts)

  member_ids-seated : (x : String) (l : Lobby V) → contains (member_ids l) x ≡ true → 1 ≤ seated x l
  unfolding member_ids everyone
  member_ids-seated x l h = ground (
    arith,
    contains-append x (flatten l.slots) (flatten l.spectators),
    contains-flatten x l.slots,
    contains-flatten x l.spectators,
  )

  close_Shrinks :
      (g : HubInner V) (p lobby_id : String) (l : Lobby V)
      → Seated g
      → lobby_of g p ≡ some lobby_id
      → Map.get lobby_id g.lobbies ≡ some l
      → Shrinks g (destroy_lobby (with_client_in none p g) lobby_id)
  unfolding destroy_lobby lobby_of
  close_Shrinks g p lobby_id l h e at =
      rw (at, destroy_lobby) (record { fewer = fewer; recorded = recorded })
    where
      closed : List (String × Lobby V)
      closed = Map.remove lobby_id g.lobbies

      after :
          (x m : String)
          → seats_in (Map.get m (Map.remove lobby_id g.lobbies)) x
            ≡ seats_in (if lobby_id == m then none else Map.get m g.lobbies) x
      after x m = ap (λ o. seats_in o x) (Map.get-remove lobby_id m g.lobbies)

      fewer :
          (x m : String) → seats_in (Map.get m (Map.remove lobby_id g.lobbies)) x ≤ seats_at g x m
      fewer x m = rw (after x m) (ground arith)

      zero_of :
          (x : String)
          → lobby_of g x ≡ some lobby_id
          → (m : String) → seats_in (Map.get m (Map.remove lobby_id g.lobbies)) x ≡ 0
      zero_of x o m = rw (after x m) (elim (Bool-cases (lobby_id == m)) [
        | inl f ↦ rw f refl
        | inr f ↦ rw f (elsewhere g x lobby_id m h o f)
      ])

      recorded :
          (x : String)
          → (own_lobby
                (Map.get x (clear_members (member_ids l) (write_client (sit_in none) p g.clients)))
              ≡ own_lobby (Map.get x g.clients))
            ⊎ ((m : String) → seats_in (Map.get m (Map.remove lobby_id g.lobbies)) x ≡ 0)
      recorded x = elim (Bool-cases (contains (member_ids l) x)) [
        | inl c ↦ inr (
            zero_of x (
              is_in-some (lobby_of g x) lobby_id
                (omega (arith, member_ids-seated x l c, h x lobby_id, ap (λ o. seats_in o x) at))))
        | inr c ↦ (elim (Bool-cases (p == x)) [
          | inl f ↦ inr (
              zero_of x
                (subst (λ y. lobby_of g y ≡ some lobby_id) ((string_eq.equal_iff p x).0 f) e))
          | inr f ↦ inl (
              own_lobby-clear_members x (member_ids l) (write_client (sit_in none) p g.clients)
              ∙ rw c (own_lobby-write_client p x g.clients ∙ rw f refl))
        ])
      ]

  pub leave_Seated : (g : HubInner V) (p : String) → Seated g → Seated (client_leave g p)
  unfolding client_leave
  leave_Seated g p h = elim (Option-cases (lobby_of g p)) [
    | inl e ↦ subst Seated {x = g} {y = client_leave g p} (rw (e, client_leave) refl) h
    | inr (lobby_id, e) ↦ (elim (Option-cases (Map.get lobby_id g.lobbies)) [
      | inl at ↦
          subst Seated {x = with_client_in none p g} {y = client_leave g p}
            (rw (e, client_leave, at) refl)
            (Shrinks-Seated g (with_client_in none p g) (lost lobby_id e at) h)
      | inr (l, at) ↦ (elim (Bool-cases (leave_closes l p)) [
        | inl c ↦
            subst Seated {x = destroy_lobby (with_client_in none p g) lobby_id}
              {y = client_leave g p} (rw (e, client_leave, at, c) refl)
              (Shrinks-Seated g _ (close_Shrinks g p lobby_id l h e at) h)
        | inr c ↦
            subst Seated
              {x = with_client_in none p
                (record g { lobbies = Map.insert lobby_id (leave_seat l p) g.lobbies })}
              {y = client_leave g p} (rw (e, client_leave, at, c) refl)
              (unseat_Seated g p lobby_id (leave_seat l p) h (inl e)
                (λ x. ground (arith, leave_seat_empties l p x, ap (λ o. seats_in o x) at))
                (ground (arith, leave_seat_empties l p p, ==_refl p)))
      ])
    ])
  ]
    where
      lost :
          (lobby_id : String)
          → lobby_of g p ≡ some lobby_id
          → Map.get lobby_id g.lobbies ≡ none
          → Shrinks g (with_client_in none p g)
      lost lobby_id e at = record {
        fewer = λ x m. omega arith;
        recorded = λ x. elim (Bool-cases (p == x)) [
          | inl f ↦ inr (λ m. elim (Bool-cases (lobby_id == m)) [
            | inl k ↦
                subst (λ y. seats_in (Map.get y g.lobbies) x ≡ 0)
                  ((string_eq.equal_iff lobby_id m).0 k) (ap (λ o. seats_in o x) at)
            | inr k ↦
                elsewhere g x lobby_id m h
                  (subst (λ y. lobby_of g y ≡ some lobby_id) ((string_eq.equal_iff p x).0 f) e) k
          ])
          | inr f ↦ inl (lobby_of-with_client_in g none p x ∙ rw f refl)
        ];
      }
