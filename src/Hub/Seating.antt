-- ===== src/Hub/Seating.antt =====
-- A client sits only in the lobby that the hub has on record for it (src/ws_lobby.rs).
use recomp_net_server.Common.{
  ℕ, zero, suc, ◌+◌, ◌≤◌, ◌≡◌, ◌⊎◌, inl, inr, refl, ap, ◌∙◌, subst, Bool, true, false, ◌&&◌, Option,
  none, some, String, if◌then◌else◌, ◌==◌, string_eq, is_some, min, max, set, arith, Option-cases,
  Bool-cases,
}
use recomp_net_server.Common.Map
use recomp_net_server.Lobby.{max_spectators, Slot, Lobby, joiner}
use recomp_net_server.Lobby.Seats.{tally, seated}
use recomp_net_server.Hub.{HubInner, Terms, empty_seats, hosted_lobby, lobby_of, with_client_in}

abbrev pub one_if : Bool → ℕ
one_if b = if b then 1 else 0

-- 1 for the lobby that a client is recorded in.
abbrev pub is_in : Option String → String → ℕ
is_in none lobby_id = 0
is_in (some m) lobby_id = if m == lobby_id then 1 else 0

tally-empty_seats : (V : Type 0) (x : String) (n : ℕ) → tally x (empty_seats {V = V} n) ≡ 0
tally-empty_seats V x zero = refl
tally-empty_seats V x (suc n) = ap (λ m. 0 + m) (tally-empty_seats V x n)

module _ {V : Type 0} where
  abbrev pub seats_in : Option (Lobby V) → String → ℕ
  seats_in none x = 0
  seats_in (some l) x = seated x l

  -- How many seats the player has in the lobby of that id.
  abbrev pub seats_at : HubInner V → String → String → ℕ
  seats_at g x lobby_id = seats_in (Map.get lobby_id g.lobbies) x

  -- Each seat is in the lobby that its client is recorded in, and there is at most one.
  abbrev pub Seated : HubInner V → Type 0
  Seated g = (x lobby_id : String) → seats_at g x lobby_id ≤ is_in (lobby_of g x) lobby_id

  pub lobby_of-with_client_in :
      (g : HubInner V) (v : Option String) (p x : String)
      → lobby_of (with_client_in v p g) x
        ≡ (if p == x && is_some (Map.get p g.clients) then v else lobby_of g x)
  unfolding lobby_of
  lobby_of-with_client_in g v p x = elim (Option-cases (Map.get p g.clients)) [
    | inl e ↦ rw e (ground arith)
    | inr (c, e) ↦ rw e (ground (arith, Map.get-insert p x (record c { lobby_id = v }) g.clients))
  ]

  tally-first :
      (x : String) (n : ℕ) (s : Slot V)
      → tally x (set (empty_seats n) 0 (some s)) ≤ (if s.player_id == x then 1 else 0)
  tally-first x zero s = omega arith
  tally-first x (suc n) s = omega (arith, tally-empty_seats V x n)

  pub seated-hosted_lobby :
      (lobby_id p d c x : String) (n : ℕ) (t : Terms V)
      → seated x (hosted_lobby lobby_id p d c n t) ≤ (if p == x then 1 else 0)
  unfolding hosted_lobby
  seated-hosted_lobby lobby_id p d c x n t = omega (
    arith,
    tally-first x (max 2 (min t.max_slots 8)) (joiner p d c),
    tally-empty_seats V x (if t.allow_spectators then max_spectators else 0),
  )

  -- Putting a client that is in no lobby into one, whose other members stay as they were.
  pub place_Seated :
      (g : HubInner V) (p lobby_id : String) (l : Lobby V) (n : ℕ)
      → Seated g
      → is_some (Map.get p g.clients) ≡ true
      → lobby_of g p ≡ none
      → ((x : String) → seated x l ≤ seats_at g x lobby_id + (if p == x then 1 else 0))
      → Seated (
          with_client_in (some lobby_id) p (record {
            clients = g.clients;
            lobbies = Map.insert lobby_id l g.lobbies;
            next_session = n;
          }))
  place_Seated g p lobby_id l n h c free k x m =
      let g' : HubInner V = record {
        clients = g.clients;
        lobbies = Map.insert lobby_id l g.lobbies;
        next_session = n;
      } in
      let same : lobby_of g' x ≡ lobby_of g x = unfold lobby_of in refl in
      elim (Bool-cases (p == x)) [
        | inl e ↦
            (let free_x : lobby_of g x ≡ none =
                subst (λ y. lobby_of g y ≡ none) ((string_eq.equal_iff p x).0 e) free in
              let now : lobby_of (with_client_in (some lobby_id) p g') x ≡ some lobby_id =
                lobby_of-with_client_in g' (some lobby_id) p x ∙ rw (e, c) refl in
              rw (now, Map.get-insert lobby_id m l g.lobbies)
                (elim (Bool-cases (lobby_id == m)) [
                  | inl f ↦ rw f (
                      omega
                        (arith, k x, h x lobby_id, ap (λ o. is_in o lobby_id) free_x, ap one_if e))
                  | inr f ↦ rw f (omega (arith, h x m, ap (λ o. is_in o m) free_x))
                ]))
        | inr e ↦
            (let now : lobby_of (with_client_in (some lobby_id) p g') x ≡ lobby_of g x =
                lobby_of-with_client_in g' (some lobby_id) p x ∙ rw e same in
              rw (now, Map.get-insert lobby_id m l g.lobbies)
                (elim (Bool-cases (lobby_id == m)) [
                  | inl f ↦ rw f (
                      subst (λ y. seated x l ≤ is_in (lobby_of g x) y)
                        ((string_eq.equal_iff lobby_id m).0 f)
                        (omega (arith, k x, h x lobby_id, ap one_if e)))
                  | inr f ↦ rw f (h x m)
                ]))
      ]

  -- A change that gives nobody a seat, where whoever is recorded in another lobby has no seat left.
  pub record Shrinks (g g' : HubInner V) : Type 0 where
    pub fewer : (x m : String) → seats_at g' x m ≤ seats_at g x m
    pub recorded :
        (x : String) → (lobby_of g' x ≡ lobby_of g x) ⊎ ((m : String) → seats_at g' x m ≡ 0)

  pub Shrinks-Seated : (g g' : HubInner V) → Shrinks g g' → Seated g → Seated g'
  Shrinks-Seated g g' k h x m = elim (k.recorded x) [
    | inl e ↦ omega (arith, k.fewer x m, h x m, ap (λ o. is_in o m) e)
    | inr z ↦ omega (arith, z m)
  ]

  -- A client that is recorded in one lobby has no seat in another.
  pub elsewhere :
      (g : HubInner V) (x lobby_id m : String)
      → Seated g
      → lobby_of g x ≡ some lobby_id
      → (lobby_id == m) ≡ false
      → seats_at g x m ≡ 0
  elsewhere g x lobby_id m h e d = omega (arith, h x m, ap (λ o. is_in o m) e, ap one_if d)

  -- One client is taken out of its lobby, whose other members stay.
  pub unseat_Seated :
      (g : HubInner V) (p lobby_id : String) (l' : Lobby V)
      → Seated g
      → ((lobby_of g p ≡ some lobby_id) ⊎ ((m : String) → seats_at g p m ≡ 0))
      → ((x : String) → seated x l' ≤ seats_at g x lobby_id)
      → seated p l' ≡ 0
      → Seated (with_client_in none p (record g { lobbies = Map.insert lobby_id l' g.lobbies }))
  unseat_Seated g p lobby_id l' h own k z =
      Shrinks-Seated g (with_client_in none p g') (record { fewer = fewer; recorded = recorded }) h
    where
      g' : HubInner V
      g' = record g { lobbies = Map.insert lobby_id l' g.lobbies }

      after :
          (x m : String)
          → seats_at (with_client_in none p g') x m
            ≡ seats_in (if lobby_id == m then some l' else Map.get m g.lobbies) x
      after x m = ap (λ o. seats_in o x) (Map.get-insert lobby_id m l' g.lobbies)

      fewer : (x m : String) → seats_at (with_client_in none p g') x m ≤ seats_at g x m
      fewer x m = rw (after x m) (elim (Bool-cases (lobby_id == m)) [
        | inl f ↦
            rw f (
              subst (λ y. seated x l' ≤ seats_at g x y) ((string_eq.equal_iff lobby_id m).0 f)
                (k x))
        | inr f ↦ rw f (omega arith)
      ])

      gone : (m : String) → seats_at (with_client_in none p g') p m ≡ 0
      gone m = rw (after p m) (elim (Bool-cases (lobby_id == m)) [
        | inl f ↦ rw f z
        | inr f ↦ rw f (elim own [ inl e ↦ elsewhere g p lobby_id m h e f | inr y ↦ y m ])
      ])

      recorded :
          (x : String)
          → (lobby_of (with_client_in none p g') x ≡ lobby_of g x)
            ⊎ ((m : String) → seats_at (with_client_in none p g') x m ≡ 0)
      recorded x = elim (Bool-cases (p == x)) [
        | inl e ↦ inr (
            subst (λ y. (m : String) → seats_at (with_client_in none p g') y m ≡ 0)
              ((string_eq.equal_iff p x).0 e) gone)
        | inr e ↦ inl (lobby_of-with_client_in g' none p x ∙ rw e (unfold lobby_of in refl))
      ]
