-- ===== src/Lobby/Moves.antt =====
-- What the seat handlers of src/ws_lobby.rs do to the members of a lobby.
use recomp_net_server.Common.{
  ℕ, zero, suc, ◌-◌, ◌≡◌, ◌≢◌, refl, sym, ap, ◌∙◌, inl, inr, Bool, true, not, Option, none, some,
  List, [], ◌∷◌, String, if◌then◌else◌, ◌==◌, nat_eq, string_eq, get_elem?, arith, Option-cases,
  is_some,
}
use recomp_net_server.Lobby.{
  spectator_slot_base, Slot, Lobby, changed, write_each, seats_player, seat, put, seat_of, trade,
  unready, clear_path, unready_players, clear_lobby_ice_paths, move, seat_move,
}
use recomp_net_server.Lobby.Seats.{
  seated, IsValid, seated-put, seat-put_self, seat-put_ne, seat_of-some, seated-unready_players,
  seated-clear_lobby_ice_paths, SameTables, put-SameTables, unready_players-SameTables,
  clear_lobby_ice_paths-SameTables, SameTables-trans,
}

module _ {V : Type 0} where
  abbrev pub id_in : Option (Option (Slot V)) → Option String
  id_in none = none
  id_in (some none) = none
  id_in (some (some s)) = some s.player_id

  -- The player that sits in a seat.
  abbrev pub holder : Lobby V → ℕ → Option String
  holder l n = id_in (seat l n)

  id_in-write_each :
      (f : Slot V → Slot V) (cells : List (Option (Slot V))) (i : ℕ)
      → ((s : Slot V) → (f s).player_id ≡ s.player_id)
      → id_in (get_elem? (write_each f cells) i) ≡ id_in (get_elem? cells i)
  id_in-write_each f [] i k = refl
  id_in-write_each f (none ∷ cells) zero k = refl
  id_in-write_each f (some s ∷ cells) zero k = ap some (k s)
  id_in-write_each f (none ∷ cells) (suc i) k = id_in-write_each f cells i k
  id_in-write_each f (some s ∷ cells) (suc i) k = id_in-write_each f cells i k

  module _ (l : Lobby V) (n : ℕ) where
    pub holder-unready_players : holder (unready_players l) n ≡ holder l n
    unfolding seat unready_players
    holder-unready_players = ground (arith, id_in-write_each unready l.slots n (λ s. refl))

    holder-clear_lobby_ice_paths : holder (clear_lobby_ice_paths l) n ≡ holder l n
    unfolding seat clear_lobby_ice_paths
    holder-clear_lobby_ice_paths = ground (
      arith,
      id_in-write_each clear_path l.slots n (λ s. refl),
      id_in-write_each clear_path l.spectators (n - spectator_slot_base) (λ s. refl),
    )

  module _ (l : Lobby V) (from to : ℕ) (a b : Option (Slot V)) (ne : from ≢ to)
      (ea : seat l from ≡ some a) (eb : seat l to ≡ some b) where
    taken : seat (put l from none) to ≡ some b
    taken = seat-put_ne l from to none ne ∙ eb

    emptied : seat (put (put l from none) to none) to ≡ some none
    emptied = seat-put_self (put l from none) to b none taken

    from_emptied : seat (put (put (put l from none) to none) to a) from ≡ some none
    from_emptied =
        seat-put_ne _ to from a (λ e. ne (sym e))
        ∙ seat-put_ne _ to from none (λ e. ne (sym e))
        ∙ seat-put_self l from a none ea

    trade_is : trade l from to ≡ put (put (put (put l from none) to none) to a) from b
    unfolding trade
    trade_is = rw (ea, taken) refl

    pub seated-trade : (x : String) → seated x (trade l from to) ≡ seated x l
    seated-trade x = rw trade_is (
        omega (
          arith,
          seated-put x l from a none ea,
          seated-put x (put l from none) to b none taken,
          seated-put x (put (put l from none) to none) to none a emptied,
          seated-put x (put (put (put l from none) to none) to a) from none b from_emptied,
        ))

    pub trade-SameTables : SameTables l (trade l from to)
    trade-SameTables = rw trade_is (
        SameTables-trans (put-SameTables l from none) (
          SameTables-trans (put-SameTables (put l from none) to none)
            (SameTables-trans (put-SameTables _ to a) (put-SameTables _ from b))))

    seat-trade :
        (n : ℕ)
        → seat (trade l from to) n
          ≡ (if n == to then some a else if n == from then some b else seat l n)
    seat-trade n = rw trade_is (
        ground (
          arith,
          seat-put_self (put (put (put l from none) to none) to a) from none b from_emptied,
          seat-put_ne (put (put (put l from none) to none) to a) from n b,
          seat-put_self (put (put l from none) to none) to none a emptied,
          seat-put_ne (put (put l from none) to none) to n a,
          seat-put_ne (put l from none) to n none,
          seat-put_ne l from n none,
          ap (λ m. seat (put (put (put l from none) to none) to a) m),
          ne,
        ))

  -- The clean-up at the end of a seat change.
  abbrev pub settled : Lobby V → Lobby V
  settled l = clear_lobby_ice_paths (unready_players l)

  module _ (l : Lobby V) where
    pub holder-settled : (n : ℕ) → holder (settled l) n ≡ holder l n
    holder-settled n =
        holder-clear_lobby_ice_paths (unready_players l) n ∙ holder-unready_players l n

    pub seated-settled : (x : String) → seated x (settled l) ≡ seated x l
    seated-settled x =
        seated-clear_lobby_ice_paths x (unready_players l) ∙ seated-unready_players x l

    pub settled-SameTables : SameTables l (settled l)
    settled-SameTables =
        SameTables-trans (unready_players-SameTables l)
          (clear_lobby_ice_paths-SameTables (unready_players l))

  -- The two occupants of two seats change places, and every other seat keeps its own.
  abbrev pub traded : Lobby V → ℕ → ℕ → ℕ → Option String
  traded l from to n =
      if n == to then holder l from else if n == from then holder l to else holder l n

  pub holder-trade :
      (l : Lobby V) (from to : ℕ) (a b : Option (Slot V))
      → from ≢ to
      → seat l from ≡ some a
      → seat l to ≡ some b
      → (n : ℕ) → holder (trade l from to) n ≡ traded l from to n
  holder-trade l from to a b ne ea eb n =
      rw (seat-trade l from to a b ne ea eb n, ea, eb) (ground arith)

  is_unready : Option (Slot V) → Bool
  is_unready none = true
  is_unready (some s) = not s.ready

  pub move_change :
      (l l' : Lobby V) (player_id : String) (from to : ℕ)
      → move l player_id from to ≡ changed l'
      → from ≢ to
      → (a b : Option (Slot V)) × (l.host_player_id ≡ player_id)
        × (seat l from ≡ some a)
        × (seat l to ≡ some b)
        × (is_some a ≡ true)
        × (l' ≡ settled (trade l from to))
  unfolding move
  move_change l l' player_id from to h ne = elim (Option-cases (seat l from)) [
    | inl e ↦ absurd (ground arith)
    | inr (a, e) ↦ (elim (Option-cases (seat l to)) [
      | inl f ↦ absurd (ground arith)
      | inr (b, f) ↦ (
        a,
        b,
        ground (arith, string_eq.equal_iff l.host_player_id player_id),
        e,
        f,
        ground arith,
        ground arith,
      )
    ])
  ]

  -- A move between two different seats that is not refused was asked for by the host, from a seat
  -- that is taken, and it makes the occupants of the two seats change places, across the tables
  -- too, while every other seat keeps its own.
  pub move_trades :
      (l l' : Lobby V) (player_id : String) (from to n : ℕ)
      → move l player_id from to ≡ changed l'
      → from ≢ to
      → (l.host_player_id ≡ player_id) × (holder l from ≢ none) × (holder l' n ≡ traded l from to n)
  move_trades l l' player_id from to n h ne =
      let (a, b, p, ea, eb, t, e) = move_change l l' player_id from to h ne in
      (
        p,
        rw ea (ground arith),
        ap (λ m. holder m n) e
            ∙ holder-settled (trade l from to) n
            ∙ holder-trade l from to a b ne ea eb n,
      )

  pub seat_move_change :
      (l l' : Lobby V) (player_id : String) (to : ℕ)
      → IsValid l
      → seat_move l player_id to ≡ changed l'
      → (from : ℕ) × (c : Option (Slot V)) × (seat_of l player_id ≡ some from)
        × (from ≢ to)
        × (seat l from ≡ some c)
        × (seats_player player_id c ≡ true)
        × (seat l to ≡ some none)
        × (l' ≡ settled (put (put l from none) to c))
  unfolding seat_move
  seat_move_change l l' player_id to v h = elim (Option-cases (seat_of l player_id)) [
    | inl e ↦ absurd (ground arith)
    | inr (from, e) ↦
        (let (c, ec, ok) = seat_of-some l player_id from v e in
          elim (Option-cases (seat l to)) [
            | inl f ↦ absurd (ground arith)
            | inr (none, f) ↦ (from, c, e, ground arith, ec, ok, f, ground arith)
            | inr (some s, f) ↦ absurd (ground arith)
          ])
  ]

  -- In a well-formed lobby, a player that takes a seat for itself takes a free one and leaves its
  -- own free; everybody else stays.
  pub seat_move_trades :
      (l l' : Lobby V) (player_id : String) (to n : ℕ)
      → IsValid l
      → seat_move l player_id to ≡ changed l'
      → (from : ℕ) × (seat_of l player_id ≡ some from)
        × (holder l from ≡ some player_id)
        × (holder l to ≡ none)
        × (holder l' n ≡ traded l from to n)
  seat_move_trades l l' player_id to n v h =
      let (from, c, e, ne, ec, ok, f, q) = seat_move_change l l' player_id to v h in
      (
        from,
        e,
        rw ec (ground (arith, id_of_seat player_id c ok)),
        rw f refl,
        ap (λ m. holder m n) q
            ∙ holder-settled (put (put l from none) to c) n
            ∙ ap id_in (seat_after from c ne ec f)
            ∙ rw (ec, f) (ground arith),
      )
    where
      id_of_seat :
          (x : String) (c : Option (Slot V)) → seats_player x c ≡ true → id_in (some c) ≡ some x
      id_of_seat x none k = absurd (ground arith)
      id_of_seat x (some s) k = ap some ((string_eq.equal_iff s.player_id x).0 k)

      seat_after :
          (from : ℕ) (c : Option (Slot V))
          → from ≢ to
          → seat l from ≡ some c
          → seat l to ≡ some none
          → seat (put (put l from none) to c) n
            ≡ (if n == to then some c else if n == from then some none else seat l n)
      seat_after from c ne ec f = ground (
        arith,
        seat-put_self (put l from none) to none c (seat-put_ne l from to none ne ∙ f),
        seat-put_ne (put l from none) to n c,
        seat-put_self l from c none ec,
        seat-put_ne l from n none,
        ap (λ m. seat (put (put l from none) to c) m),
        ap (λ m. seat (put l from none) m),
      )
