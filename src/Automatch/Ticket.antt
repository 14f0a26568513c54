-- ===== src/Automatch/Ticket.antt =====
-- The tickets and offers of src/automatch.rs, and the rules that say whether two tickets may pair. An
-- `Instant` is a number of nanoseconds; the clock's reading is the argument `now`.
use recomp_net_server.Common.{
  ℕ, ◌+◌, ◌-◌, ◌*◌, ◌/◌, ◌≡◌, ◌↔◌, max, Bool, true, false, not, ◌&&◌, ◌||◌, Option, none, some,
  List, String, ltb, leb, PartialEq, ◌==◌, nat_eq, string_eq, arith, if◌then◌else◌, any, contains,
  is_some,
}
use recomp_net_server.Common.Int.{ℤ, is_negative, to_ℕ}

pub record MatchKey : Type 0 where
  pub game_name : String
  pub game_version : String
  pub disc_fp : String
  pub ruleset_id : String
  pub max_slots : ℕ

abbrev pub key_beq : MatchKey → MatchKey → Bool
key_beq k l =
    k.game_name == l.game_name
    && k.game_version == l.game_version
    && k.disc_fp == l.disc_fp
    && k.ruleset_id == l.ruleset_id
    && k.max_slots == l.max_slots

pub key_beq_iff : (k l : MatchKey) → (key_beq k l ≡ true) ↔ (k ≡ l)
key_beq_iff k l = ground (
  arith,
  string_eq.equal_iff k.game_name l.game_name,
  string_eq.equal_iff k.game_version l.game_version,
  string_eq.equal_iff k.disc_fp l.disc_fp,
  string_eq.equal_iff k.ruleset_id l.ruleset_id,
)

instance abbrev pub key_eq : PartialEq MatchKey
key_eq = record { equal = key_beq; equal_iff = key_beq_iff }

pub record Ticket : Type 0 where
  pub player_id : String
  pub account_id : String
  pub handle : String
  pub username : String
  pub country : String
  pub keys : List MatchKey
  pub host_bind : String
  pub guest_bind : String
  pub relay_endpoint : Option String
  pub ice_relay : Bool
  pub queued_at : ℕ
  pub rtt_ms : ℤ
  -- a `HashSet`
  pub blocks : List String

-- `at.elapsed().as_secs()`
abbrev pub elapsed_secs : ℕ → ℕ → ℕ
elapsed_secs now at = (now - at) / 1_000_000_000

abbrev pub waited : ℕ → Ticket → ℕ
waited now t = elapsed_secs now t.queued_at

pub record Pending : Type 0 where
  pub match_id : String
  pub key : MatchKey
  pub a : Ticket
  pub b : Ticket
  pub a_accept : Option Bool
  pub b_accept : Option Bool
  pub offered_at : ℕ

unfoldable pub is_ice : Pending → Bool
is_ice p = p.a.ice_relay && p.b.ice_relay

-- The better measured link; `a` unless both are measured and `b`'s is shorter.
unfoldable pub rtt_pick : Pending → Bool
rtt_pick p = not (
    not (is_negative p.a.rtt_ms)
    && not (is_negative p.b.rtt_ms)
    && ltb (to_ℕ p.b.rtt_ms) (to_ℕ p.a.rtt_ms))

abbrev relay_choice : Option String → Option String → Bool → Option Bool
relay_choice (some ea) none pick = some true
relay_choice none (some eb) pick = some false
relay_choice none none pick = none
relay_choice (some ea) (some eb) pick = some pick

unfoldable pub relay_host_is_a : Pending → Option Bool
unfolding is_ice rtt_pick
relay_host_is_a p =
    if is_ice p
    then some (rtt_pick p)
    else relay_choice p.a.relay_endpoint p.b.relay_endpoint (rtt_pick p)

unfoldable pub side : Pending → String → Option Bool
side p player_id =
    if p.a.player_id == player_id
    then some true
    else if p.b.player_id == player_id
    then some false
    else none

-- `x == Some(b)`
abbrev pub is_answer : Bool → Option Bool → Bool
is_answer b none = false
is_answer true (some x) = x
is_answer false (some x) = not x

unfoldable pub answered : Pending → Bool
answered p =
    is_answer false p.a_accept
    || is_answer false p.b_accept
    || (is_some p.a_accept && is_some p.b_accept)

unfoldable pub both_yes : Pending → Bool
both_yes p = is_answer true p.a_accept && is_answer true p.b_accept

abbrev pub rtt_start_ms : ℕ
rtt_start_ms = 120

abbrev pub rtt_step_ms : ℕ
rtt_step_ms = 60

abbrev pub rtt_widen_secs : ℕ
rtt_widen_secs = 20

abbrev pub rtt_unlimited_after_steps : ℕ
rtt_unlimited_after_steps = 5

abbrev pub probe_grace_secs : ℕ
probe_grace_secs = 3

unfoldable pub relay_possible : Ticket → Ticket → Bool
relay_possible a b =
    is_some a.relay_endpoint || is_some b.relay_endpoint || (a.ice_relay && b.ice_relay)

unfoldable pub measurable : ℕ → Ticket → Bool
measurable now t = not (is_negative t.rtt_ms) || leb probe_grace_secs (waited now t)

unfoldable pub rtt_ok : ℕ → Ticket → Ticket → Bool
rtt_ok now a b =
    let steps = max (waited now a) (waited now b) / rtt_widen_secs in
    if is_negative a.rtt_ms || is_negative b.rtt_ms
    then true
    else if leb rtt_unlimited_after_steps steps
    then true
    else leb (to_ℕ a.rtt_ms + to_ℕ b.rtt_ms) (rtt_start_ms + steps * rtt_step_ms)

-- An account pair that met, and when.
pub record Meeting : Type 0 where
  pub first : String
  pub second : String
  pub at : ℕ

unfoldable pub is_rematch : (now cooldown : ℕ) → Ticket → Ticket → Meeting → Bool
is_rematch now cooldown a b m =
    ltb (elapsed_secs now m.at) cooldown
    && ((m.first == a.account_id && m.second == b.account_id)
        || (m.first == b.account_id && m.second == a.account_id))

unfoldable pub rematch_ok : List Meeting → (now cooldown : ℕ) → Ticket → Ticket → Bool
unfolding is_rematch
rematch_ok recent now cooldown a b =
    if leb (rtt_widen_secs * rtt_unlimited_after_steps) (max (waited now a) (waited now b))
    then true
    else not (any (is_rematch now cooldown a b) recent)

-- Either has blocked the other's account.
unfoldable pub blocked : Ticket → Ticket → Bool
blocked a b = contains a.blocks b.account_id || contains b.blocks a.account_id
