-- ===== src/Lobby/Changes.antt =====
-- The seat changes of src/ws_lobby.rs keep the seat tables and seat nobody anew.
use recomp_net_server.Common.{
  ℕ, suc, ◌+◌, ◌≤◌, ◌≡◌, ◌≢◌, ◌⊎◌, refl, sym, ap, ◌∙◌, subst, inl, inr, Bool, not, ◌||◌, Option,
  none, some, List, [], ◌∷◌, map, String, if◌then◌else◌, ◌==◌, nat_eq, string_eq, length, arith,
  Option-cases, Bool-cases, any, length-map,
}
use recomp_net_server.Lobby.{
  crosses, Slot, Lobby, changed, seats_player, seat, put, seat_of, trade, clear_path,
  unready_players, clear_lobby_ice_paths, kick, move, seat_move, seat_swap_answer, leave_seat,
  set_ready, with_offers, write_own, is_gallery, vacate,
}
use recomp_net_server.Lobby.Seats.{
  tally, seated, IsValid, seated-put, seat-put_ne, seat_of-some, seated-unready_players, SameTables,
  put-SameTables, unready_players-SameTables, clear_lobby_ice_paths-SameTables, SameTables-trans,
  SameTables-IsValid, tally-write_each,
}
use recomp_net_server.Lobby.Moves.{
  traded, settled, seated-settled, settled-SameTables, seated-trade, trade-SameTables, move_change,
  seat_move_change,
}

module _ {V : Type 0} where
  -- A change of the lobby that keeps the tables and seats nobody anew.
  pub record Keeps (l l' : Lobby V) : Type 0 where
    pub tables : SameTables l l'
    pub fewer : (x : String) → seated x l' ≤ seated x l

  pub Keeps-refl : (l : Lobby V) → Keeps l l
  Keeps-refl l = record {
    tables = record {
      slots_len = refl;
      gallery_len = refl;
      max_slots = refl;
      allow_spectators = refl;
    };
    fewer = λ x. omega arith;
  }

  pub Keeps-IsValid : (l l' : Lobby V) → Keeps l l' → IsValid l → IsValid l'
  Keeps-IsValid l l' k v = SameTables-IsValid l l' k.tables k.fewer v

  settled-Keeps : (l l' : Lobby V) → Keeps l l' → Keeps l (settled l')
  settled-Keeps l l' k = record {
    tables = SameTables-trans k.tables (settled-SameTables l');
    fewer = λ x. omega (arith, seated-settled l' x, k.fewer x);
  }

  put-Keeps :
      (l : Lobby V) (n : ℕ) (c : Option (Slot V)) → seat l n ≡ some c → Keeps l (put l n none)
  put-Keeps l n c e = record {
    tables = put-SameTables l n none;
    fewer = λ x. omega (arith, seated-put x l n c none e);
  }

  pub kick-Keeps :
      (l l' : Lobby V) (player_id : String) (n : ℕ) → kick l player_id n ≡ changed l' → Keeps l l'
  unfolding kick
  kick-Keeps l l' player_id n h = elim (Option-cases (seat l n)) [
    | inl e ↦ absurd (ground arith)
    | inr (none, e) ↦ absurd (ground arith)
    | inr (some s, e) ↦
        (let k = put-Keeps l n (some s) e in
          let cleared : Lobby V = record (put l n none) { guest_endpoint = "" } in
          let k' : Keeps l cleared = record {
            tables = record {
              slots_len = k.tables.slots_len;
              gallery_len = k.tables.gallery_len;
              max_slots = k.tables.max_slots;
              allow_spectators = k.tables.allow_spectators;
            };
            fewer = k.fewer;
          } in
          subst (λ m. Keeps l m) {x = settled cleared} {y = l'} (ground arith)
            (settled-Keeps l cleared k'))
  ]

  trade-Keeps :
      (l : Lobby V) (from to : ℕ) (a b : Option (Slot V))
      → from ≢ to
      → seat l from ≡ some a
      → seat l to ≡ some b
      → Keeps l (trade l from to)
  trade-Keeps l from to a b ne ea eb = record {
    tables = trade-SameTables l from to a b ne ea eb;
    fewer = λ x. omega (arith, seated-trade l from to a b ne ea eb x);
  }

  pub move-Keeps :
      (l l' : Lobby V) (player_id : String) (from to : ℕ)
      → move l player_id from to ≡ changed l'
      → Keeps l l'
  move-Keeps l l' player_id from to h = elim (Bool-cases (from == to)) [
    | inl e ↦ subst (λ m. Keeps l m) {x = l} {y = l'} (unfold move in ground arith) (Keeps-refl l)
    | inr e ↦
        (let (a, b, p, ea, eb, t, q) = move_change l l' player_id from to h (ground arith) in
          subst (λ m. Keeps l m) (sym q)
            (settled-Keeps l (trade l from to) (trade-Keeps l from to a b (ground arith) ea eb)))
  ]

  pub seat_move-Keeps :
      (l l' : Lobby V) (player_id : String) (to : ℕ)
      → IsValid l
      → seat_move l player_id to ≡ changed l'
      → Keeps l l'
  seat_move-Keeps l l' player_id to v h =
      let (from, c, e, ne, ec, ok, f, q) = seat_move_change l l' player_id to v h in
      subst (λ m. Keeps l m) (sym q)
        (settled-Keeps l (put (put l from none) to c) (record {
          tables =
              SameTables-trans (put-SameTables l from none) (put-SameTables (put l from none) to c);
          fewer = λ x. omega (
            arith,
            seated-put x l from c none ec,
            seated-put x (put l from none) to none c (seat-put_ne l from to none ne ∙ f),
          );
        }))

  swap_change :
      (l l' : Lobby V) (player_id asker : String) (accept traded : Bool)
      → IsValid l
      → seat_swap_answer l player_id accept asker ≡ some (l', traded)
      → (l' ≡ l)
        ⊎ ((mine theirs : ℕ) × (a b : Option (Slot V)) × (mine ≢ theirs)
            × (seat l mine ≡ some a)
            × (seat l theirs ≡ some b)
            × ((l' ≡ unready_players (trade l mine theirs)) ⊎ (l' ≡ settled (trade l mine theirs))))
  unfolding seat_swap_answer
  swap_change l l' player_id asker accept traded v h = elim (Option-cases (seat_of l player_id)) [
    | inl e ↦ absurd (ground arith)
    | inr (mine, e) ↦ (elim (Option-cases (seat_of l asker)) [
      | inl f ↦ absurd (ground arith)
      | inr (theirs, f) ↦
          (let (a, ea, _) = seat_of-some l player_id mine v e in
            let (b, eb, _) = seat_of-some l asker theirs v f in
            elim (Bool-cases (not accept || mine == theirs)) [
              | inl s ↦ inl (ground arith)
              | inr s ↦ (elim (Bool-cases (crosses mine theirs)) [
                | inl k ↦ inr (mine, theirs, a, b, ground arith, ea, eb, inr (ground arith))
                | inr k ↦ inr (mine, theirs, a, b, ground arith, ea, eb, inl (ground arith))
              ])
            ])
    ])
  ]

  pub swap-Keeps :
      (l l' : Lobby V) (player_id asker : String) (accept traded : Bool)
      → IsValid l
      → seat_swap_answer l player_id accept asker ≡ some (l', traded)
      → Keeps l l'
  swap-Keeps l l' player_id asker accept traded v h =
      elim (swap_change l l' player_id asker accept traded v h) [
        | inl e ↦ subst (λ m. Keeps l m) (sym e) (Keeps-refl l)
        | inr (mine, theirs, a, b, ne, ea, eb, inr q) ↦
            subst (λ m. Keeps l m) (sym q)
              (settled-Keeps l (trade l mine theirs) (trade-Keeps l mine theirs a b ne ea eb))
        | inr (mine, theirs, a, b, ne, ea, eb, inl q) ↦
            (let k = trade-Keeps l mine theirs a b ne ea eb in
              subst (λ m. Keeps l m) (sym q)
                (record {
                  tables =
                      SameTables-trans k.tables (unready_players-SameTables (trade l mine theirs));
                  fewer =
                      λ x. omega (arith, seated-unready_players x (trade l mine theirs), k.fewer x);
                }))
      ]

  tally-vacate :
      (x y : String) (cells : List (Option (Slot V)))
      → tally x (map (vacate y) cells) ≡ (if x == y then 0 else tally x cells)
  tally-vacate x y [] = ground arith
  tally-vacate x y (none ∷ cells) = ground (arith, tally-vacate x y cells)
  tally-vacate x y (some s ∷ cells) = ground (
    arith,
    tally-vacate x y cells,
    string_eq.equal_iff x y,
    string_eq.equal_iff s.player_id y,
    string_eq.equal_iff s.player_id x,
  )

  -- A member that leaves has no seat left in either table, and nobody else loses one.
  pub leave_seat_empties :
      (l : Lobby V) (player_id x : String)
      → seated x (leave_seat l player_id) ≡ (if x == player_id then 0 else seated x l)
  unfolding leave_seat clear_lobby_ice_paths
  leave_seat_empties l player_id x =
      rw
        (
          tally-write_each x clear_path (map (vacate player_id) l.slots) (λ s. refl),
          tally-write_each x clear_path (map (vacate player_id) l.spectators) (λ s. refl),
          tally-vacate x player_id l.slots,
          tally-vacate x player_id l.spectators,
        )
        (ground arith)

  pub leave-Keeps : (l : Lobby V) (player_id : String) → Keeps l (leave_seat l player_id)
  unfolding leave_seat
  leave-Keeps l player_id = record {
    tables =
        SameTables-trans
          (record {
            slots_len = length-map (vacate player_id) l.slots;
            gallery_len = length-map (vacate player_id) l.spectators;
            max_slots = refl;
            allow_spectators = refl;
          })
          (clear_lobby_ice_paths-SameTables _);
    fewer = λ x. ground (arith, leave_seat_empties l player_id x);
  }

  tally-write_own :
      (x y : String) (f : Slot V → Slot V) (cells : List (Option (Slot V)))
      → ((s : Slot V) → (f s).player_id ≡ s.player_id)
      → (tally x (write_own y f cells) ≡ tally x cells)
        × (length (write_own y f cells) ≡ length cells)
  tally-write_own x y f [] k = (refl, refl)
  tally-write_own x y f (none ∷ cells) k =
      let (a, b) = tally-write_own x y f cells k in (ap (λ n. 0 + n) a, ap suc b)
  tally-write_own x y f (some s ∷ cells) k = ground (arith, tally-write_own x y f cells k, k s)

  pub ready-Keeps :
      (l : Lobby V) (player_id : String) (ready : Bool) (bios mods memcard : Option V)
      → Keeps l (set_ready l player_id ready bios mods memcard)
  unfolding set_ready
  ready-Keeps l player_id ready bios mods memcard =
      let f = with_offers (not (is_gallery (seat_of l player_id))) ready bios mods memcard in
      let own = λ (x : String). tally-write_own x player_id f l.slots (λ s. refl) in
      let own' = λ (x : String). tally-write_own x player_id f l.spectators (λ s. refl) in
      elim (Bool-cases (any (seats_player player_id) l.slots)) [
        | inl e ↦ rw e (record {
          tables = record {
            slots_len = (own "").1;
            gallery_len = refl;
            max_slots = refl;
            allow_spectators = refl;
          };
          fewer = λ x. omega (arith, (own x).0);
        })
        | inr e ↦ rw e (record {
          tables = record {
            slots_len = refl;
            gallery_len = (own' "").1;
            max_slots = refl;
            allow_spectators = refl;
          };
          fewer = λ x. omega (arith, (own' x).0);
        })
      ]
