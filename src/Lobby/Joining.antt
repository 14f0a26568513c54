-- ===== src/Lobby/Joining.antt =====
-- Where `seat_joiner_locked` of src/ws_lobby.rs seats a joiner.
use recomp_net_server.Common.{
  ℕ, suc, ◌+◌, ◌-◌, ◌≤◌, ◌<◌, ◌≡◌, ◌↔◌, refl, sym, ap, subst, inl, inr, true, false, not, ◌||◌,
  Option, none, some, List, [], ◌∷◌, String, leb, if◌then◌else◌, ◌==◌, nat_eq, string_eq, length,
  get_elem?, arith, Option-cases, Bool-cases, ==_refl, is_some, any, all,
}
use recomp_net_server.Lobby.{
  spectator_slot_base, is_spectator_seat, Slot, Lobby, refused, changed, flatten, position_from,
  seat, put, joiner, is_free, free_seat, seat_joiner, player_count, unready_players,
  clear_lobby_ice_paths, clear_path,
}
use recomp_net_server.Lobby.Seats.{
  tally, seated, IsValid, seated-put, put-SameTables, SameTables-trans, position_from-hit,
  tally-set, tally-write_each,
}
use recomp_net_server.Lobby.Moves.{settled, seated-settled, settled-SameTables}

module _ {V : Type 0} where
  none_free :
      (i : ℕ) (cells : List (Option (Slot V)))
      → position_from is_free i cells ≡ none
      → any is_free cells ≡ false
  none_free i [] h = refl
  none_free i (none ∷ cells) h = absurd (ground arith)
  none_free i (some s ∷ cells) h = none_free (suc i) cells (ground arith)

  some_free :
      (i n : ℕ) (cells : List (Option (Slot V)))
      → position_from is_free i cells ≡ some n
      → any is_free cells ≡ true
  some_free i n [] h = absurd (ground arith)
  some_free i n (none ∷ cells) h = refl
  some_free i n (some s ∷ cells) h = some_free (suc i) n cells (ground arith)

  all_taken : (cells : List (Option (Slot V))) → all is_some cells ≡ not (any is_free cells)
  all_taken [] = refl
  all_taken (none ∷ cells) = refl
  all_taken (some s ∷ cells) = all_taken cells

  count_taken : (cells : List (Option (Slot V))) → length (flatten cells) ≤ length cells
  count_taken [] = omega arith
  count_taken (none ∷ cells) = omega (arith, count_taken cells)
  count_taken (some s ∷ cells) = omega (arith, count_taken cells)

  count_free :
      (cells : List (Option (Slot V)))
      → any is_free cells ≡ true
      → length (flatten cells) < length cells
  count_free [] h = absurd (ground arith)
  count_free (none ∷ cells) h = omega (arith, count_taken cells)
  count_free (some s ∷ cells) h = omega (arith, count_free cells (ground arith))

  -- A seat of the player table is chosen exactly if it has a free one.
  players_full :
      (l : Lobby V)
      → IsValid l
      → (leb l.max_slots (player_count l) || all is_some l.slots) ≡ not (any is_free l.slots)
  unfolding player_count
  players_full l v = elim (Bool-cases (any is_free l.slots)) [
    | inl e ↦ ground (arith, count_free l.slots e, all_taken l.slots, v.slots_len)
    | inr e ↦ ground (arith, all_taken l.slots)
  ]

  is_free-none : (c : Option (Slot V)) → is_free c ≡ true → c ≡ none
  is_free-none none h = refl
  is_free-none (some s) h = absurd (ground arith)

  -- Where the joiner goes: a player seat if one is free, else the gallery.
  record Place (l : Lobby V) (n : ℕ) : Type 0 where
    vacant : seat l n ≡ some none
    gallery : is_spectator_seat n ≡ not (any is_free l.slots)

  free_seat-Place : (l : Lobby V) (n : ℕ) → IsValid l → free_seat l ≡ some n → Place l n
  unfolding free_seat seat
  free_seat-Place l n v h = elim (Bool-cases (any is_free l.slots)) [
    | inl e ↦
        (let (k, c, q, r, t, b) =
            position_from-hit is_free 0 l.slots n (ground (arith, players_full l v)) in
          let same : k ≡ n = omega arith in
          record {
            vacant = ground (
              arith,
              v.slots_len,
              v.slots_below,
              ap (λ m. get_elem? l.slots m) same,
              is_free-none c t,
            );
            gallery = ground (arith, v.slots_len, v.slots_below);
          })
    | inr e ↦ (elim (Option-cases (position_from is_free 0 l.spectators)) [
      | inl f ↦ absurd (ground (arith, players_full l v))
      | inr (i, f) ↦
          (let (k, c, q, r, t, b) = position_from-hit is_free 0 l.spectators i f in
            let at : n ≡ 64 + i = ground (arith, players_full l v) in
            let same : k ≡ n - 64 = omega arith in
            record {
              vacant =
                  ground (arith, at, ap (λ m. get_elem? l.spectators m) same, is_free-none c t);
              gallery = ground (arith, at);
            })
    ])
  ]

  -- In a well-formed lobby, a joiner is refused exactly if both tables are full.
  pub seat_joiner_full :
      (l : Lobby V) (player_id display_name country guest_endpoint : String)
      → IsValid l
      → (seat_joiner l player_id display_name country guest_endpoint ≡ refused "full")
        ↔ ((any is_free l.slots || any is_free l.spectators) ≡ false)
  unfolding seat_joiner
  seat_joiner_full l player_id display_name country guest_endpoint v =
      elim (Option-cases (free_seat l)) [
        | inl e ↦ (λ h. nothing e, λ h. rw (e, seat_joiner) refl)
        | inr (n, e) ↦ (
          λ h. absurd (ground (arith, (free_seat-Place l n v e).vacant)),
          λ h. absurd (something n e h),
        )
      ]
    where
      nothing : free_seat l ≡ none → (any is_free l.slots || any is_free l.spectators) ≡ false
      nothing e =
          unfold free_seat in
          ground (
            arith,
            players_full l v,
            none_free 0 l.slots,
            none_free 0 l.spectators,
            Option-cases (position_from is_free 0 l.spectators),
          )

      something :
          (n : ℕ)
          → free_seat l ≡ some n
          → (any is_free l.slots || any is_free l.spectators) ≡ false
          → ⊥
      something n e h = elim (Option-cases (position_from is_free 0 l.spectators)) [
        | inl f ↦ unfold free_seat in ground (arith, players_full l v)
        | inr (i, f) ↦ ground (arith, some_free 0 i l.spectators f)
      ]

  seat_joiner_change :
      (l l' : Lobby V) (player_id display_name country guest_endpoint : String)
      → IsValid l
      → seat_joiner l player_id display_name country guest_endpoint ≡ changed l'
      → (n : ℕ) × Place l n
        × (l' ≡ record (settled (put l n (some (joiner player_id display_name country)))) {
          guest_endpoint = guest_endpoint;
        })
  unfolding seat_joiner
  seat_joiner_change l l' player_id display_name country guest_endpoint v h =
      elim (Option-cases (free_seat l)) [
        | inl e ↦ absurd (ground arith)
        | inr (n, e) ↦
            (let p = free_seat-Place l n v e in (n, p, (let q = p.vacant in ground arith)))
      ]

  gallery-settled :
      (x : String) (l : Lobby V) → tally x (settled l).spectators ≡ tally x l.spectators
  unfolding clear_lobby_ice_paths unready_players
  gallery-settled x l = tally-write_each x clear_path l.spectators (λ s. refl)

  gallery-put :
      (x : String) (l : Lobby V) (n : ℕ) (s : Slot V)
      → seat l n ≡ some none
      → tally x (put l n (some s)).spectators
        ≡ tally x l.spectators
          + (if is_spectator_seat n then (if s.player_id == x then 1 else 0) else 0)
  unfolding seat put
  gallery-put x l n s h = elim (Bool-cases (is_spectator_seat n)) [
    | inl e ↦ rw e (
        omega
          (arith, tally-set x l.spectators (n - spectator_slot_base) none (some s) (ground arith)))
    | inr e ↦ rw e (omega arith)
  ]

  -- In a well-formed lobby, a joiner that is not seated yet and is not refused gets one seat, in
  -- the gallery exactly if every player seat is taken; nobody else gains or loses a seat, and the
  -- lobby stays well formed.
  pub seat_joiner_seats :
      (l l' : Lobby V) (player_id display_name country guest_endpoint x : String)
      → IsValid l
      → seated player_id l ≡ 0
      → seat_joiner l player_id display_name country guest_endpoint ≡ changed l'
      → IsValid l'
        × (seated x l' ≡ seated x l + (if player_id == x then 1 else 0))
        × (tally player_id l'.spectators ≡ (if any is_free l.slots then 0 else 1))
  seat_joiner_seats l l' player_id display_name country guest_endpoint x v h j =
      let (n, p, e) = seat_joiner_change l l' player_id display_name country guest_endpoint v j in
      let s = joiner player_id display_name country in
      let mid = put l n (some s) in
      let tables = SameTables-trans (put-SameTables l n (some s)) (settled-SameTables mid) in
      let counts : (y : String)
          → seated y (settled mid) ≡ seated y l + (if player_id == y then 1 else 0) =
        (λ y. omega (arith, seated-settled mid y, seated-put y l n none (some s) p.vacant)) in
      let at_most : (y : String) → seated y (settled mid) ≤ 1 = (λ y.
        ground
          (arith, counts y, v.one_seat y, string_eq.equal_iff player_id y, ap (λ z. seated z l))) in
      (
        subst (λ m. IsValid m) (sym e)
            (record {
              slots_len = ground (arith, tables.slots_len, tables.max_slots, v.slots_len);
              slots_below = ground (arith, tables.max_slots, v.slots_below);
              gallery_len =
                  ground (arith, tables.gallery_len, tables.allow_spectators, v.gallery_len);
              one_seat = at_most;
            }),
        rw e (counts x),
        rw e (
            ground (
              arith,
              gallery-settled player_id mid,
              gallery-put player_id l n s p.vacant,
              p.gallery,
              ==_refl player_id,
            )),
      )
