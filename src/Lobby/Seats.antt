-- ===== src/Lobby/Seats.antt =====
-- Where the members of a lobby sit: how the writes to a seat change it (src/ws_lobby.rs).
use recomp_net_server.Common.{
  ℕ, zero, suc, ◌+◌, ◌-◌, ◌≤◌, ◌<◌, ◌≡◌, ◌≢◌, refl, ap, ◌∙◌, subst, inl, inr, Bool, true, Option,
  none, some, List, [], ◌∷◌, String, if◌then◌else◌, nat_eq, string_eq, length, get_elem?, set,
  arith, Option-cases, Bool-cases,
}
use recomp_net_server.Lobby.{
  spectator_slot_base, is_spectator_seat, Slot, Lobby, write_each, position_from, seats_player,
  seat, put, seat_of, unready, clear_path, unready_players, clear_lobby_ice_paths,
}

module _ {V : Type 0} where
  -- 1 for the player's own cell.
  abbrev pub is_seat : String → Option (Slot V) → ℕ
  is_seat x cell = if seats_player x cell then 1 else 0

  -- How many cells of a table the player has.
  abbrev pub tally : String → List (Option (Slot V)) → ℕ
  tally x [] = 0
  tally x (cell ∷ cells) = is_seat x cell + tally x cells

  -- How many seats of a lobby the player has.
  abbrev pub seated : String → Lobby V → ℕ
  seated x l = tally x l.slots + tally x l.spectators

  -- Both tables are of their size, the player table ends below the first spectator seat, and nobody
  -- sits twice.
  pub record IsValid (l : Lobby V) : Type 0 where
    pub slots_len : length l.slots ≡ l.max_slots
    pub slots_below : l.max_slots ≤ 64
    pub gallery_len : length l.spectators ≡ (if l.allow_spectators then 4 else 0)
    pub one_seat : (x : String) → seated x l ≤ 1

  pub length-set :
      (cells : List (Option (Slot V))) (i : ℕ) (d : Option (Slot V))
      → length (set cells i d) ≡ length cells
  length-set [] i d = refl
  length-set (c ∷ cells) zero d = refl
  length-set (c ∷ cells) (suc i) d = ap suc (length-set cells i d)

  length-write_each :
      (f : Slot V → Slot V) (cells : List (Option (Slot V)))
      → length (write_each f cells) ≡ length cells
  length-write_each f [] = refl
  length-write_each f (none ∷ cells) = ap suc (length-write_each f cells)
  length-write_each f (some s ∷ cells) = ap suc (length-write_each f cells)

  pub tally-set :
      (x : String) (cells : List (Option (Slot V))) (i : ℕ) (c d : Option (Slot V))
      → get_elem? cells i ≡ some c
      → tally x (set cells i d) + is_seat x c ≡ tally x cells + is_seat x d
  tally-set x [] i c d h = absurd (ground arith)
  tally-set x (b ∷ cells) zero c d h =
      subst
        (λ y. is_seat x d + tally x cells + is_seat x y ≡ is_seat x b + tally x cells + is_seat x d)
        {x = b} {y = c} (ground arith) (omega arith)
  tally-set x (b ∷ cells) (suc i) c d h = omega (arith, tally-set x cells i c d h)

  pub tally-write_each :
      (x : String) (f : Slot V → Slot V) (cells : List (Option (Slot V)))
      → ((s : Slot V) → (f s).player_id ≡ s.player_id)
      → tally x (write_each f cells) ≡ tally x cells
  tally-write_each x f [] k = refl
  tally-write_each x f (none ∷ cells) k = ap (λ n. 0 + n) (tally-write_each x f cells k)
  tally-write_each x f (some s ∷ cells) k = rw (k s, tally-write_each x f cells k) refl

  get_elem?-set_self :
      (cells : List (Option (Slot V))) (i : ℕ) (c d : Option (Slot V))
      → get_elem? cells i ≡ some c
      → get_elem? (set cells i d) i ≡ some d
  get_elem?-set_self [] i c d h = absurd (ground arith)
  get_elem?-set_self (b ∷ cells) zero c d h = refl
  get_elem?-set_self (b ∷ cells) (suc i) c d h = get_elem?-set_self cells i c d h

  get_elem?-set_ne :
      (cells : List (Option (Slot V))) (i j : ℕ) (d : Option (Slot V))
      → i ≢ j
      → get_elem? (set cells i d) j ≡ get_elem? cells j
  get_elem?-set_ne [] i j d h = refl
  get_elem?-set_ne (b ∷ cells) zero zero d h = absurd (h refl)
  get_elem?-set_ne (b ∷ cells) zero (suc j) d h = refl
  get_elem?-set_ne (b ∷ cells) (suc i) zero d h = refl
  get_elem?-set_ne (b ∷ cells) (suc i) (suc j) d h = get_elem?-set_ne cells i j d (omega arith)

  pub seated-put :
      (x : String) (l : Lobby V) (n : ℕ) (c d : Option (Slot V))
      → seat l n ≡ some c
      → seated x (put l n d) + is_seat x c ≡ seated x l + is_seat x d
  unfolding seat put
  seated-put x l n c d h = elim (Bool-cases (is_spectator_seat n)) [
    | inl e ↦
        rw e (omega (arith, tally-set x l.spectators (n - spectator_slot_base) c d (ground arith)))
    | inr e ↦ rw e (omega (arith, tally-set x l.slots n c d (ground arith)))
  ]

  pub seat-put_self :
      (l : Lobby V) (n : ℕ) (c d : Option (Slot V))
      → seat l n ≡ some c
      → seat (put l n d) n ≡ some d
  unfolding seat put
  seat-put_self l n c d h = elim (Bool-cases (is_spectator_seat n)) [
    | inl e ↦ rw e (get_elem?-set_self l.spectators (n - spectator_slot_base) c d (ground arith))
    | inr e ↦ rw e (get_elem?-set_self l.slots n c d (ground arith))
  ]

  pub seat-put_ne :
      (l : Lobby V) (n m : ℕ) (d : Option (Slot V)) → n ≢ m → seat (put l n d) m ≡ seat l m
  unfolding seat put
  seat-put_ne l n m d h = ground (
    arith,
    get_elem?-set_ne l.spectators (n - spectator_slot_base) (m - spectator_slot_base) d,
    get_elem?-set_ne l.slots n m d h,
  )

  -- What `put` keeps of the sizes.
  pub put-IsValid :
      (l : Lobby V) (n : ℕ) (d : Option (Slot V))
      → (length (put l n d).slots ≡ length l.slots)
        × (length (put l n d).spectators ≡ length l.spectators)
        × ((put l n d).max_slots ≡ l.max_slots)
        × ((put l n d).allow_spectators ≡ l.allow_spectators)
  unfolding put
  put-IsValid l n d = elim (Bool-cases (is_spectator_seat n)) [
    | inl e ↦ rw e (refl, length-set l.spectators (n - spectator_slot_base) d, refl, refl)
    | inr e ↦ rw e (length-set l.slots n d, refl, refl, refl)
  ]

  pub position_from-hit :
      (p : Option (Slot V) → Bool) (i : ℕ) (cells : List (Option (Slot V))) (n : ℕ)
      → position_from p i cells ≡ some n
      → (k : ℕ) × (c : Option (Slot V)) × (n ≡ i + k)
        × (get_elem? cells k ≡ some c)
        × (p c ≡ true)
        × (k < length cells)
  position_from-hit p i [] n h = absurd (ground arith)
  position_from-hit p i (c ∷ cells) n h = elim (Bool-cases (p c)) [
    | inl e ↦ (0, c, ground arith, refl, e, omega arith)
    | inr e ↦
        (let (k, d, q, r, t, b) = position_from-hit p (suc i) cells n (ground arith) in
          (suc k, d, omega arith, r, t, omega arith))
  ]

  position_from-none :
      (x : String) (i : ℕ) (cells : List (Option (Slot V)))
      → position_from (seats_player x) i cells ≡ none
      → tally x cells ≡ 0
  position_from-none x i [] h = refl
  position_from-none x i (c ∷ cells) h = ground (arith, position_from-none x (suc i) cells)

  -- The seat that `seat_of` gives is one of the player's.
  pub seat_of-some :
      (l : Lobby V) (x : String) (n : ℕ)
      → IsValid l
      → seat_of l x ≡ some n
      → (c : Option (Slot V)) × (seat l n ≡ some c) × (seats_player x c ≡ true)
  unfolding seat_of seat
  seat_of-some l x n v h = elim (Option-cases (position_from (seats_player x) 0 l.slots)) [
    | inr (i, e) ↦
        (let (k, c, p, q, r, b) = position_from-hit (seats_player x) 0 l.slots i e in
          let same : k ≡ n = ground arith in
          (c, ground (arith, v.slots_len, v.slots_below, ap (λ m. get_elem? l.slots m) same), r))
    | inl e ↦ (elim (Option-cases (position_from (seats_player x) 0 l.spectators)) [
      | inl f ↦ absurd (ground arith)
      | inr (i, f) ↦
          (let (k, c, p, q, r, b) = position_from-hit (seats_player x) 0 l.spectators i f in
            let same : k ≡ n - 64 = ground arith in
            (c, ground (arith, ap (λ m. get_elem? l.spectators m) same), r))
    ])
  ]

  pub seat_of-none : (l : Lobby V) (x : String) → seat_of l x ≡ none → seated x l ≡ 0
  unfolding seat_of
  seat_of-none l x h =
      ground (arith, position_from-none x 0 l.slots, position_from-none x 0 l.spectators)

  module _ (x : String) (l : Lobby V) where
    pub seated-unready_players : seated x (unready_players l) ≡ seated x l
    unfolding unready_players
    seated-unready_players = rw (tally-write_each x unready l.slots (λ s. refl)) refl

    pub seated-clear_lobby_ice_paths : seated x (clear_lobby_ice_paths l) ≡ seated x l
    unfolding clear_lobby_ice_paths
    seated-clear_lobby_ice_paths =
        rw
          (
            tally-write_each x clear_path l.slots (λ s. refl),
            tally-write_each x clear_path l.spectators (λ s. refl),
          )
          refl

  -- Both tables of one lobby have the sizes of the other's.
  pub record SameTables (l l' : Lobby V) : Type 0 where
    pub slots_len : length l'.slots ≡ length l.slots
    pub gallery_len : length l'.spectators ≡ length l.spectators
    pub max_slots : l'.max_slots ≡ l.max_slots
    pub allow_spectators : l'.allow_spectators ≡ l.allow_spectators

  pub put-SameTables : (l : Lobby V) (n : ℕ) (d : Option (Slot V)) → SameTables l (put l n d)
  put-SameTables l n d =
      let (a, b, c, e) = put-IsValid l n d in
      record { slots_len = a; gallery_len = b; max_slots = c; allow_spectators = e }

  pub unready_players-SameTables : (l : Lobby V) → SameTables l (unready_players l)
  unfolding unready_players
  unready_players-SameTables l = record {
    slots_len = length-write_each unready l.slots;
    gallery_len = refl;
    max_slots = refl;
    allow_spectators = refl;
  }

  pub clear_lobby_ice_paths-SameTables : (l : Lobby V) → SameTables l (clear_lobby_ice_paths l)
  unfolding clear_lobby_ice_paths
  clear_lobby_ice_paths-SameTables l = record {
    slots_len = length-write_each clear_path l.slots;
    gallery_len = length-write_each clear_path l.spectators;
    max_slots = refl;
    allow_spectators = refl;
  }

  pub SameTables-trans : {l m n : Lobby V} → SameTables l m → SameTables m n → SameTables l n
  SameTables-trans a b = record {
    slots_len = b.slots_len ∙ a.slots_len;
    gallery_len = b.gallery_len ∙ a.gallery_len;
    max_slots = b.max_slots ∙ a.max_slots;
    allow_spectators = b.allow_spectators ∙ a.allow_spectators;
  }

  pub SameTables-IsValid :
      (l l' : Lobby V)
      → SameTables l l'
      → ((x : String) → seated x l' ≤ seated x l)
      → IsValid l
      → IsValid l'
  SameTables-IsValid l l' t k v = record {
    slots_len = ground (arith, t.slots_len, t.max_slots, v.slots_len);
    slots_below = ground (arith, t.max_slots, v.slots_below);
    gallery_len = ground (arith, t.gallery_len, t.allow_spectators, v.gallery_len);
    one_seat = λ x. omega (arith, k x, v.one_seat x);
  }
