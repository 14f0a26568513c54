-- ===== src/Rooms/Join.antt =====
-- When `join` of src/rooms.rs succeeds, and what the public list promises about it.
use recomp_net_server.Common.{
  ℕ, ◌<◌, ◌≡◌, refl, Option, none, List, map, true, false, not, ◌||◌, String, ◌↔◌, arith,
  Bool-cases, Option-cases, inl, inr, some, ap, sym, ◌∙◌, [], ◌∷◌, nat_eq, length, any, ==_refl,
  length-map, string_eq,
}
use recomp_net_server.Rooms.{
  Room, Member, is_open, is_member, ok, free_from, join_room, codes_eq, code_accepted, is_listed,
}
use recomp_net_server.Rooms.Slots.{free_from-IsLeastFree, free_from-eq-none, IsLeastFree}
use recomp_net_server.Rooms.Invariant.{added}

-- The code of the room, given.
unfoldable pub Given : (room_code given : Option (List ℕ)) → Type 0
Given room_code given = (c : List ℕ) × (room_code ≡ some c) × (given ≡ some c)

codes_eq_eq : (a b : List ℕ) → codes_eq a b ≡ true → a ≡ b
codes_eq_eq [] [] h = refl
codes_eq_eq [] (b ∷ bs) h = absurd (ground arith)
codes_eq_eq (a ∷ as') [] h = absurd (ground arith)
codes_eq_eq (a ∷ as') (b ∷ bs) h =
    let first : a ≡ b = ground arith in
    let rest : as' ≡ bs = codes_eq_eq as' bs (ground arith) in
    ap (λ x. x ∷ as') first ∙ ap (λ xs. b ∷ xs) rest

codes_eq_refl : (a : List ℕ) → codes_eq a a ≡ true
codes_eq_refl [] = refl
codes_eq_refl (a ∷ as') = ground (arith, codes_eq_refl as')

code_accepted-Given :
    (r : Room) (code : Option (List ℕ)) → code_accepted r code ≡ true → Given r.join_code code
unfolding code_accepted Given
code_accepted-Given r none h = absurd (ground arith)
code_accepted-Given r (some given) h = elim (Option-cases r.join_code) [
  | inl open' ↦ absurd (ground arith)
  | inr (c, e) ↦
      let same : codes_eq c given ≡ true = rw (code_accepted, e) at h in
      (c, e, ap (λ x. some x) (sym (codes_eq_eq c given same)))
]

Given-code_accepted :
    (r : Room) (code : Option (List ℕ)) → Given r.join_code code → code_accepted r code ≡ true
unfolding code_accepted Given
Given-code_accepted r code (c, room_code, given) =
    rw (given, code_accepted, room_code) (codes_eq_refl c)

-- What a joiner must meet, as the client sees it.
pub record MayJoin (player_id : ℕ) (game_id client_version : String) (code : Option (List ℕ))
    (r : Room) : Type 0 where
  pub opened : is_open r.status ≡ true
  pub same_game : r.game_id ≡ game_id
  pub same_version : r.client_version ≡ client_version
  pub code_given : r.is_private ≡ true → Given r.join_code code
  pub absent : any (is_member player_id) r.members ≡ false
  pub room_left : length r.members < r.slot_count

abbrev pub used_slots : Room → List ℕ
used_slots r = map (λ (m : Member). m.local_slot) r.members

abbrev pub joiner : ℕ → ℕ → ℕ → Member
joiner player_id slot now = record {
  player_id = player_id;
  local_slot = slot;
  ready = false;
  last_heartbeat = now;
}

private_check :
    (r : Room) (code : Option (List ℕ))
    → (r.is_private ≡ true → Given r.join_code code)
    → (not r.is_private || code_accepted r code) ≡ true
private_check r code h = elim (Bool-cases r.is_private) [
  | inl e ↦ ground (arith, Given-code_accepted r code (h e))
  | inr e ↦ ground arith
]

-- A joiner who meets the conditions is let in, on the least free slot: the search for a slot
-- cannot fail in a room that is not full.
pub join_room_total :
    (player_id : ℕ) (game_id client_version : String) (code : Option (List ℕ)) (now : ℕ) (r : Room)
    → MayJoin player_id game_id client_version code r
    → (slot : ℕ) × IsLeastFree (used_slots r) 0 r.slot_count slot
      × (join_room player_id game_id client_version code now r
          ≡ ok (added r (joiner player_id slot now) now))
unfolding join_room
join_room_total player_id game_id client_version code now r c =
    elim (Option-cases (free_from (used_slots r) 0 r.slot_count)) [
      | inl e ↦ absurd (
          omega (
            arith,
            free_from-eq-none (used_slots r) 0 r.slot_count e,
            length-map (λ (m : Member). m.local_slot) r.members,
            c.room_left,
          ))
      | inr (slot, e) ↦ (
        slot,
        free_from-IsLeastFree (used_slots r) 0 r.slot_count slot e,
        ground (arith, private_check r code c.code_given, ==_refl game_id, ==_refl client_version),
      )
    ]

join_room-MayJoin :
    (player_id : ℕ) (game_id client_version : String) (code : Option (List ℕ)) (now : ℕ)
    (r r' : Room)
    → join_room player_id game_id client_version code now r ≡ ok r'
    → MayJoin player_id game_id client_version code r
unfolding join_room
join_room-MayJoin player_id game_id client_version code now r r' h = record {
  opened = ground arith;
  same_game = ground (arith, string_eq.equal_iff r.game_id game_id);
  same_version = ground (arith, string_eq.equal_iff r.client_version client_version);
  code_given = λ p. code_accepted-Given r code (ground arith);
  absent = ground arith;
  room_left = ground arith;
}

-- A player can join a room exactly when the room is open, plays the same game in the same version,
-- is public or given its code, does not hold the player yet, and has fewer members than slots.
pub join_room_iff :
    (player_id : ℕ) (game_id client_version : String) (code : Option (List ℕ)) (now : ℕ) (r : Room)
    → ((r' : Room) × (join_room player_id game_id client_version code now r ≡ ok r'))
      ↔ MayJoin player_id game_id client_version code r
join_room_iff player_id game_id client_version code now r = (
  (λ (r', h). join_room-MayJoin player_id game_id client_version code now r r' h),
  λ c. let (slot, _, e) = join_room_total player_id game_id client_version code now r c in (_, e),
)

-- Every room of the public list can be joined without a code by a player who is not in it.
pub listed-MayJoin :
    (game_id : String) (version : Option String) (player_id : ℕ) (r : Room)
    → is_listed game_id version r ≡ true
    → any (is_member player_id) r.members ≡ false
    → MayJoin player_id game_id r.client_version none r
unfolding is_listed
listed-MayJoin game_id version player_id r h absent = record {
  opened = ground arith;
  same_game = ground (arith, string_eq.equal_iff r.game_id game_id);
  same_version = refl;
  code_given = λ p. absurd (ground arith);
  absent = absent;
  room_left = ground arith;
}
