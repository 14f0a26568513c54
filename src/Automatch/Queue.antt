-- ===== src/Automatch/Queue.antt =====
-- `QueueInner` and the operations of `Queue` in src/automatch.rs. Each operation holds the queue's
-- lock throughout, so it is one step on the state; it reads the clock once.
pub mod Pairing
pub mod Offers
pub mod Rematch
pub mod Answers
pub mod Accounts
pub mod Examples
use recomp_net_server.Common.{
  ℕ, zero, suc, ◌+◌, ◌-◌, ◌*◌, ◌/◌, ◌≡◌, ◌↔◌, max, Bool, true, false, not, ◌&&◌, ◌||◌, Option, none,
  some, List, [], ◌∷◌, ◌++◌, map, String, ltb, leb, PartialEq, ◌==◌, nat_eq, string_eq,
  if◌then◌else◌, any, contains, is_some, is_none, length, retain, find, update_first, erase_idx,
  get_elem?, remove_first, min,
}
use recomp_net_server.Common.Int.{ℤ, pos, negsuc, is_negative, to_ℕ}
use recomp_net_server.Automatch.Ticket.{
  MatchKey, key_eq, Ticket, Pending, Meeting, waited, elapsed_secs, side, answered, blocked,
  relay_possible, measurable, rtt_ok, rematch_ok,
}

pub record QueueInner : Type 0 where
  pub tickets : List Ticket
  pub pending : List Pending
  pub recent : List Meeting

abbrev pub empty : QueueInner
empty = record { tickets = []; pending = []; recent = [] }

unfoldable pub is_queued_account : QueueInner → String → Bool
is_queued_account g account_id =
    any (λ (t : Ticket). t.account_id == account_id) g.tickets
    || any (λ (p : Pending). p.a.account_id == account_id || p.b.account_id == account_id) g.pending

unfoldable pub waiting : QueueInner → ℕ
waiting g = length g.tickets

unfoldable pub pool_for : QueueInner → MatchKey → String → ℕ
pool_for g key excluding =
    length
      (retain (λ (t : Ticket). not (t.account_id == excluding) && contains t.keys key) g.tickets)

unfoldable pub push : Ticket → QueueInner → QueueInner
push t g = record g { tickets = g.tickets ++ t ∷ [] }

-- The offer that the player is half of.
abbrev pub is_half : String → Pending → Bool
is_half player_id p = is_some (side p player_id)

unfoldable pub remove_player : String → QueueInner → QueueInner × Option Pending
remove_player player_id g = (
  record g {
    tickets = retain (λ (t : Ticket). not (t.player_id == player_id)) g.tickets;
    pending = remove_first (is_half player_id) g.pending;
  },
  find (is_half player_id) g.pending,
)

unfoldable pub set_rtt : String → ℤ → QueueInner → QueueInner × Bool
set_rtt player_id rtt_ms g = (
  record g {
    tickets =
        update_first (λ (t : Ticket). t.player_id == player_id) (λ t. record t { rtt_ms = rtt_ms })
          g.tickets;
  },
  any (λ (t : Ticket). t.player_id == player_id) g.tickets,
)

unfoldable pub ticket_of : String → QueueInner → Option Ticket
ticket_of player_id g = find (λ (t : Ticket). t.player_id == player_id) g.tickets

unfoldable pub requeue_front : ℕ → Ticket → QueueInner → QueueInner
requeue_front now t g = record g { tickets = record t { queued_at = now } ∷ g.tickets }

-- The write of an answer on the player's side.
unfoldable pub record_answer : String → Bool → Pending → Pending
record_answer player_id accept p = elim (side p player_id) [
  | none ↦ p
  | some true ↦ record p { a_accept = some accept }
  | some false ↦ record p { b_accept = some accept }
]

abbrev pub names_other : Option String → Pending → Bool
names_other none p = false
names_other (some m) p = not (m == p.match_id)

unfoldable pub answer_for : String → Bool → Option String → QueueInner → QueueInner × Option Pending
answer_for player_id accept match_id g = elim (find (is_half player_id) g.pending) [
  | none ↦ (g, none)
  | some p ↦
      if names_other match_id p
      then (g, none)
      else if answered (record_answer player_id accept p)
      then (
        record g { pending = remove_first (is_half player_id) g.pending },
        some (record_answer player_id accept p),
      )
      else (
        record g {
          pending = update_first (is_half player_id) (record_answer player_id accept) g.pending;
        },
        none,
      )
]

abbrev pub has_expired : (now accept_secs : ℕ) → Pending → Bool
has_expired now accept_secs p = leb accept_secs (elapsed_secs now p.offered_at)

unfoldable pub take_expired : (now accept_secs : ℕ) → QueueInner → QueueInner × List Pending
take_expired now accept_secs g = (
  record g { pending = retain (λ p. not (has_expired now accept_secs p)) g.pending },
  retain (has_expired now accept_secs) g.pending,
)

unfoldable pub note_pairing : ℕ → String → String → QueueInner → QueueInner
note_pairing now a b g = record g {
  recent = g.recent ++ record { first = a; second = b; at = now } ∷ [];
}

-- The tests of `find_pair_pass` on two tickets and a key of the first, other than `i == j`.
unfoldable pub eligible :
    List Meeting → (now cooldown : ℕ) → (allow_rematch : Bool) → MatchKey → Ticket → Ticket → Bool
eligible recent now cooldown allow_rematch key a b =
    contains b.keys key
    && not (a.account_id == b.account_id)
    && not (blocked a b)
    && relay_possible a b
    && (measurable now a && measurable now b)
    && rtt_ok now a b
    && (allow_rematch || rematch_ok recent now cooldown a b)

-- The three loops of `find_pair_pass`: over the partner `j`, the keys of ticket `i`, and `i`. The list
-- at hand is the rest of the tickets from the index on.
module _ (test : MatchKey → Ticket → Ticket → Bool) where
  pub scan_partners : (i : ℕ) → Ticket → MatchKey → (j : ℕ) → List Ticket → Option ℕ
  scan_partners i a key j [] = none
  scan_partners i a key j (b ∷ bs) =
      let rest = scan_partners i a key (suc j) bs in
      if i == j then rest else if test key a b then some j else rest

  pub scan_keys : (i : ℕ) → Ticket → List Ticket → List MatchKey → Option (ℕ × ℕ × MatchKey)
  scan_keys i a all [] = none
  scan_keys i a all (key ∷ keys) = elim (scan_partners i a key 0 all) [
    | none ↦ scan_keys i a all keys
    | some j ↦ some (i, j, key)
  ]

  pub scan_tickets : (i : ℕ) → List Ticket → List Ticket → Option (ℕ × ℕ × MatchKey)
  scan_tickets i all [] = none
  scan_tickets i all (a ∷ rest) = elim (scan_keys i a all a.keys) [
    | none ↦ scan_tickets (suc i) all rest
    | some hit ↦ some hit
  ]

unfoldable pub find_pair_pass : QueueInner → (now cooldown : ℕ) → Bool → Option (ℕ × ℕ × MatchKey)
find_pair_pass g now cooldown allow_rematch =
    scan_tickets (eligible g.recent now cooldown allow_rematch) 0 g.tickets g.tickets

unfoldable pub find_pair : QueueInner → (now cooldown : ℕ) → Option (ℕ × ℕ × MatchKey)
find_pair g now cooldown = elim (find_pair_pass g now cooldown false) [
  | none ↦ find_pair_pass g now cooldown true
  | some hit ↦ some hit
]

-- Slot 0 goes to the older ticket.
unfoldable pub offer_of : String → ℕ → MatchKey → Ticket → Ticket → Pending
offer_of match_id now key lo hi = record {
  match_id = match_id;
  key = key;
  a = if leb lo.queued_at hi.queued_at then lo else hi;
  b = if leb lo.queued_at hi.queued_at then hi else lo;
  a_accept = none;
  b_accept = none;
  offered_at = now;
}

-- The body of the loop of `pair` on the indices that the scan gave; the higher index is removed
-- first. An index out of range would be a panic; `none` stands for it.
unfoldable pub take_pair :
    String → ℕ → QueueInner → ℕ → ℕ → MatchKey → Option (QueueInner × Pending)
take_pair match_id now g i j key =
    let hi = max i j in
    let lo = min i j in
    elim (get_elem? g.tickets hi) [
      | none ↦ none
      | some t_hi ↦ (elim (get_elem? (erase_idx g.tickets hi) lo) [
        | none ↦ none
        | some t_lo ↦
            (let p = offer_of match_id now key t_lo t_hi in
              some (
                record g {
                  tickets = erase_idx (erase_idx g.tickets hi) lo;
                  pending = g.pending ++ p ∷ [];
                },
                p,
              ))
      ])
    ]

-- The loop of `pair`. `uuid n` is the n-th identifier that is drawn; a round removes two tickets, so
-- the fuel is the number of tickets.
module _ (uuid : ℕ → String) (now cooldown : ℕ) where
  pub pair_loop : (fuel n : ℕ) → QueueInner → QueueInner × List Pending
  pair_loop zero n g = (g, [])
  pair_loop (suc fuel) n g = elim (find_pair g now cooldown) [
    | none ↦ (g, [])
    | some (i, j, key) ↦ (elim (take_pair (uuid n) now g i j key) [
      | none ↦ (g, [])
      | some (g', p) ↦ (let (g'', offers) = pair_loop fuel (suc n) g' in (g'', p ∷ offers))
    ])
  ]

  -- Old meetings are forgotten first.
  pub forget : QueueInner → QueueInner
  forget g = record g {
    recent = retain (λ (m : Meeting). ltb (elapsed_secs now m.at) cooldown) g.recent;
  }

  unfoldable pub pair : QueueInner → QueueInner × List Pending
  unfolding forget pair_loop
  pair g = pair_loop (length g.tickets) 0 (forget g)

-- One row for each waiting ticket: the player, its wait, its round trip, and for each of its keys the
-- tickets of other accounts that share the key.
pub record StatusRow : Type 0 where
  pub player_id : String
  pub waited_secs : ℕ
  pub rtt_ms : ℤ
  pub pools : List (MatchKey × ℕ)

unfoldable pub status_rows : ℕ → QueueInner → List StatusRow
status_rows now g =
    map
      (λ (t : Ticket). record {
        player_id = t.player_id;
        waited_secs = waited now t;
        rtt_ms = t.rtt_ms;
        pools = map (λ k. (k, pool_for g k t.account_id)) t.keys;
      })
      g.tickets
