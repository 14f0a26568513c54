-- ===== src/Rooms/Invariant.antt =====
-- The well-formedness of a room, which every operation of the registry keeps.
use recomp_net_server.Common.{
  ℕ, ◌+◌, ◌*◌, ◌≤◌, ◌<◌, ◌≡◌, ◌≢◌, refl, sym, subst, ap, ◌∙◌, Option, none, some, List, [], ◌∷◌,
  ◌++◌, map, Bool, true, false, not, arith, Bool-cases, inl, inr, length, retain, contains, any,
  if◌then◌else◌, ◌==◌, leb, nat_eq, All, Distinct, is_some, All-append, All-retain,
  All-update_first, All-map, any-update_first, Distinct-snoc, Distinct-retain,
  Distinct-update_first, Distinct-map, length-append, length-retain-le, length-update_first,
  length-map, update_first,
}
use recomp_net_server.Rooms.{
  Room, Member, RoomStatus, «open», starting, running, closed, is_member, is_starting, unready, ok,
  leave_room, set_ready_room, update_barrier, all_ready, heartbeat_room, mark_running_room,
  drop_silent, nanos,
}

-- A session id exists exactly from the moment the barrier is met; a closed room is not kept.
abbrev pub SessionMatches : RoomStatus → Option ℕ → Type 0
SessionMatches «open» s = s ≡ none
SessionMatches starting s = is_some s ≡ true
SessionMatches running s = is_some s ≡ true
SessionMatches closed s = ⊥

-- Slot 0 is the host's and nobody else's.
abbrev pub IsHostSlot : ℕ → Member → Type 0
IsHostSlot host m = (m.local_slot == 0) ≡ (m.player_id == host)

pub record IsValid (r : Room) : Type 0 where
  pub slots_low : 2 ≤ r.slot_count
  pub slots_high : r.slot_count ≤ 8
  pub seated : length r.members ≤ r.slot_count
  pub ids : Distinct (λ (m : Member). m.player_id) r.members
  pub slots : Distinct (λ (m : Member). m.local_slot) r.members
  pub below : All (λ (m : Member). m.local_slot < r.slot_count) r.members
  pub host_slot : All (IsHostSlot r.host_player_id) r.members
  pub session : SessionMatches r.status r.session_id
  pub code : is_some r.join_code ≡ r.is_private

-- The host is in the room. `purge_stale` restores this by removing the rooms where it fails.
abbrev pub HasHost : Room → Type 0
HasHost r = any (is_member r.host_player_id) r.members ≡ true

abbrev pub touched : Room → (Member → Bool) → (Member → Member) → ℕ → Room
touched r p f at = record r { members = update_first p f r.members; updated_at = at }

-- A change of one member that leaves its id and its slot alone.
module _ (r : Room) (p : Member → Bool) (f : Member → Member) (at : ℕ)
    (same_id : (m : Member) → (f m).player_id ≡ m.player_id)
    (same_slot : (m : Member) → (f m).local_slot ≡ m.local_slot) where
  pub touched-IsValid : IsValid r → IsValid (touched r p f at)
  touched-IsValid v = record {
    slots_low = v.slots_low;
    slots_high = v.slots_high;
    seated = rw length-update_first v.seated;
    ids = Distinct-update_first _ p f r.members same_id v.ids;
    slots = Distinct-update_first _ p f r.members same_slot v.slots;
    below = All-update_first _ p f r.members (λ m h. rw same_slot h) v.below;
    host_slot =
        All-update_first (IsHostSlot r.host_player_id) p f r.members
          (λ m h.
            ap (λ s. s == 0) (same_slot m) ∙ h ∙ ap (λ s. s == r.host_player_id) (sym (same_id m)))
          v.host_slot;
    session = v.session;
    code = v.code;
  }

  pub touched-HasHost : HasHost r → HasHost (touched r p f at)
  touched-HasHost h =
      any-update_first (is_member r.host_player_id) p f r.members
        (λ m. ap (λ s. s == r.host_player_id) (same_id m))
      ∙ h

pub heartbeat_room-IsValid :
    (player_id now : ℕ) (r r' : Room)
    → IsValid r
    → heartbeat_room player_id now r ≡ ok r'
    → IsValid r'
unfolding heartbeat_room
heartbeat_room-IsValid player_id now r r' v h = subst IsValid (ground arith) (
    touched-IsValid r (is_member player_id) (λ m. record m { last_heartbeat = now }) now (λ m. refl)
      (λ m. refl) v)

-- A change of the status and the session id together.
pub restatus-IsValid :
    (r : Room) (s : RoomStatus) (i : Option ℕ) (at : ℕ)
    → IsValid r
    → SessionMatches s i
    → IsValid (record r { status = s; session_id = i; updated_at = at })
restatus-IsValid r s i at v m = record {
  slots_low = v.slots_low;
  slots_high = v.slots_high;
  seated = v.seated;
  ids = v.ids;
  slots = v.slots;
  below = v.below;
  host_slot = v.host_slot;
  session = m;
  code = v.code;
}

session_is_some : (draw : ℕ) (i : Option ℕ) → is_some (if is_some i then i else some draw) ≡ true
session_is_some draw none = refl
session_is_some draw (some i) = refl

pub update_barrier-IsValid : (draw : ℕ) (r : Room) → IsValid r → IsValid (update_barrier draw r)
unfolding update_barrier
update_barrier-IsValid draw r v = elim (Bool-cases (all_ready r)) [
  | inl e ↦ rw e (restatus-IsValid r starting _ r.updated_at v (session_is_some draw r.session_id))
  | inr e ↦ rw e (elim (Bool-cases (is_starting r.status)) [
    | inl q ↦ rw q (restatus-IsValid r «open» none r.updated_at v refl)
    | inr q ↦ rw q v
  ])
]

pub set_ready_room-IsValid :
    (player_id : ℕ) (ready : Bool) (now draw : ℕ) (r r' : Room)
    → IsValid r
    → set_ready_room player_id ready now draw r ≡ ok r'
    → IsValid r'
unfolding set_ready_room
set_ready_room-IsValid player_id ready now draw r r' v h = subst IsValid (ground arith) (
    update_barrier-IsValid draw _ (
      touched-IsValid r (is_member player_id)
        (λ m. record m { ready = ready; last_heartbeat = now }) now (λ m. refl) (λ m. refl) v))

pub mark_running_room-IsValid :
    (player_id now : ℕ) (r r' : Room)
    → IsValid r
    → mark_running_room player_id now r ≡ ok r'
    → IsValid r'
unfolding mark_running_room
mark_running_room-IsValid player_id now r r' v h = subst IsValid (ground arith) (
    restatus-IsValid r running r.session_id now v
      (subst (λ s. SessionMatches s r.session_id) was_starting v.session))
  where
    was_starting : r.status ≡ starting
    was_starting = ground arith

host_uses_zero :
    (host : ℕ) (ms : List Member)
    → any (is_member host) ms ≡ true
    → All (IsHostSlot host) ms
    → contains (map (λ (m : Member). m.local_slot) ms) 0 ≡ true
host_uses_zero host [] h a = h
host_uses_zero host (m ∷ ms) h a = ground (arith, host_uses_zero host ms)

absent-All :
    (player_id : ℕ) (ms : List Member)
    → any (is_member player_id) ms ≡ false
    → All (λ (y : Member). y.player_id ≢ player_id) ms
absent-All player_id [] h = tt
absent-All player_id (m ∷ ms) h = ground (arith, absent-All player_id ms)

unused-All :
    (slot : ℕ) (ms : List Member)
    → contains (map (λ (m : Member). m.local_slot) ms) slot ≡ false
    → All (λ (y : Member). y.local_slot ≢ slot) ms
unused-All slot [] h = tt
unused-All slot (m ∷ ms) h = ground (arith, unused-All slot ms)

abbrev pub added : Room → Member → ℕ → Room
added r m at = record r { members = r.members ++ m ∷ []; updated_at = at }

-- A member that takes an unused slot, in a room with a place left.
module _ (r : Room) (m : Member) (at : ℕ) (absent : any (is_member m.player_id) r.members ≡ false)
    (free : contains (map (λ (m : Member). m.local_slot) r.members) m.local_slot ≡ false)
    (in_range : m.local_slot < r.slot_count) where
  added-IsHostSlot : HasHost r → IsValid r → IsHostSlot r.host_player_id m
  added-IsHostSlot hh v =
      ground
        (arith, host_uses_zero r.host_player_id r.members hh v.host_slot, slot_differs, id_differs)
    where
      slot_differs : m.local_slot ≢ 0
      slot_differs e = cc (
        subst (λ s. contains (map (λ (m : Member). m.local_slot) r.members) s ≡ false) e free,
        host_uses_zero r.host_player_id r.members hh v.host_slot,
      )

      id_differs : m.player_id ≢ r.host_player_id
      id_differs e = cc (subst (λ i. any (is_member i) r.members ≡ false) e absent, hh)

  pub added-IsValid :
      HasHost r → IsValid r → length r.members < r.slot_count → IsValid (added r m at)
  added-IsValid hh v room_left = record {
    slots_low = v.slots_low;
    slots_high = v.slots_high;
    seated = rw length-append (omega arith);
    ids = Distinct-snoc _ r.members m v.ids (absent-All m.player_id r.members absent);
    slots = Distinct-snoc _ r.members m v.slots (unused-All m.local_slot r.members free);
    below = All-append _ r.members (m ∷ []) v.below (in_range, tt);
    host_slot = All-append _ r.members (m ∷ []) v.host_slot (added-IsHostSlot hh v, tt);
    session = v.session;
    code = v.code;
  }

pub leave_room-IsValid :
    (player_id now : ℕ) (r : Room) → IsValid r → IsValid (leave_room player_id now r)
unfolding leave_room
leave_room-IsValid player_id now r v =
    restatus-IsValid (record r { members = left; updated_at = now }) _ _ now fewer (ground arith)
  where
    stays : Member → Bool
    stays m = not (is_member player_id m)

    left : List Member
    left = map unready (retain stays r.members)

    fewer : IsValid (record r { members = left; updated_at = now })
    fewer = record {
      slots_low = v.slots_low;
      slots_high = v.slots_high;
      seated = rw length-map (omega (arith, length-retain-le stays r.members));
      ids = Distinct-map _ unready _ (λ m. refl) (Distinct-retain _ stays r.members v.ids);
      slots = Distinct-map _ unready _ (λ m. refl) (Distinct-retain _ stays r.members v.slots);
      below = All-map _ unready _ (λ m h. h) (All-retain _ stays r.members v.below);
      host_slot = All-map _ unready _ (λ m h. h) (All-retain _ stays r.members v.host_slot);
      session = v.session;
      code = v.code;
    }

pub drop_silent-IsValid :
    (now timeout : ℕ) (r : Room) → IsValid r → IsValid (drop_silent now timeout r)
unfolding drop_silent
drop_silent-IsValid now timeout r v = record {
  slots_low = v.slots_low;
  slots_high = v.slots_high;
  seated = (let n = length-retain-le recent r.members in omega arith);
  ids = Distinct-retain _ recent r.members v.ids;
  slots = Distinct-retain _ recent r.members v.slots;
  below = All-retain _ recent r.members v.below;
  host_slot = All-retain _ recent r.members v.host_slot;
  session = v.session;
  code = v.code;
}
  where
    recent : Member → Bool
    recent m = leb now (m.last_heartbeat + timeout * nanos)
