-- ===== src/Automatch/Driver.antt =====
-- The automatch handlers of src/ws_lobby.rs, in what they do to the queue and to the strike log. Whom
-- the hub still has a connection of is the argument `connected`. The messages that they send, the
-- metrics and the lobby that a formed match gets are not part of this state.
pub mod Places
pub mod Strikes
pub mod Races
pub mod Waiting
pub mod Examples
use recomp_net_server.Common.{
  ℕ, ◌+◌, ◌<◌, ◌≡◌, Bool, true, false, not, ◌&&◌, ◌||◌, Option, none, some, List, [], ◌∷◌, ◌++◌,
  String, leb, if◌then◌else◌, string_eq, ◌==◌, is_some, is_none, get_or, length,
}
use recomp_net_server.Common.Int.{ℤ}
use recomp_net_server.Automatch.Ticket.{Ticket, Pending, both_yes, is_answer, relay_host_is_a}
use recomp_net_server.Automatch.Queue.{
  QueueInner, is_queued_account, waiting, push, remove_player, set_rtt, requeue_front, answer_for,
  take_expired, note_pairing, pair,
}
use recomp_net_server.Automatch.Delay.{sanitize_rtt}

-- A row of `automatch_strikes`.
pub record Strike : Type 0 where
  pub account_id : String
  pub kind : String
  pub game_name : String

pub record Desk : Type 0 where
  pub queue : QueueInner
  pub strikes : List Strike

abbrev pub strike_of : Ticket → String → Pending → Strike
strike_of t kind p = record { account_id = t.account_id; kind = kind; game_name = p.key.game_name }

-- The side that `settle_declined` charges, and the one that it puts back.
abbrev pub loser_of : Pending → String → Ticket
loser_of p loser_player_id = if p.a.player_id == loser_player_id then p.a else p.b

abbrev pub other_of : Pending → String → Ticket
other_of p loser_player_id = if p.a.player_id == loser_player_id then p.b else p.a

unfoldable pub settle_declined :
    (connected : String → Bool) → (now : ℕ) → Pending → String → String → Desk → Desk
settle_declined connected now p loser_player_id kind s = record {
  queue =
      if connected (other_of p loser_player_id).player_id
      then requeue_front now (other_of p loser_player_id) s.queue
      else s.queue;
  strikes = s.strikes ++ strike_of (loser_of p loser_player_id) kind p ∷ [];
}

unfoldable pub handle_automatch_cancel :
    (connected : String → Bool) → (now : ℕ) → String → Desk → Desk
handle_automatch_cancel connected now player_id s =
    let (g, found) = remove_player player_id s.queue in
    elim found [
      | none ↦ record s { queue = g }
      | some p ↦ settle_declined connected now p player_id "timeout" (record s { queue = g })
    ]

-- `form_match` up to the point where the lobby is built. `ruleset_known` says that the offer's ruleset
-- still resolves, `lobby_limit` that the hub holds its maximum of lobbies. The survivor is chosen
-- as the source chooses it.
abbrev pub gone_player : (connected : String → Bool) → Pending → String
gone_player connected p = if connected p.a.player_id then p.a.player_id else p.b.player_id

abbrev pub survivor_of : (connected : String → Bool) → Pending → Ticket
survivor_of connected p = if gone_player connected p == p.a.player_id then p.b else p.a

unfoldable pub form_match :
    (connected : String → Bool)
    → (now : ℕ) → (ruleset_known lobby_limit : Bool) → Pending
    → Desk
    → Desk
form_match connected now ruleset_known lobby_limit p s =
    let noted : Desk = record s {
      queue = note_pairing now p.a.account_id p.b.account_id s.queue;
    } in
    if not ruleset_known || is_none (relay_host_is_a p) || lobby_limit
    then noted
    else if connected p.a.player_id && connected p.b.player_id
    then noted
    else if connected (survivor_of connected p).player_id
    then record noted { queue = requeue_front now (survivor_of connected p) noted.queue }
    else noted

abbrev pub put_back : (connected : String → Bool) → (now : ℕ) → Ticket → Desk → Desk
put_back connected now t s =
    if connected t.player_id then record s { queue = requeue_front now t s.queue } else s

-- The end of the task that `form_match` starts, when the relay was not reachable.
unfoldable pub requeue_both : (connected : String → Bool) → (now : ℕ) → Pending → Desk → Desk
requeue_both connected now p s = put_back connected now p.b (put_back connected now p.a s)

abbrev pub decliner_of : Pending → Ticket
decliner_of p = if is_answer false p.a_accept then p.a else p.b

unfoldable pub handle_automatch_accept :
    (connected : String → Bool)
    → (now : ℕ) → (ruleset_known lobby_limit : Bool) → String
    → Bool
    → Option String
    → Desk
    → Desk
handle_automatch_accept connected now ruleset_known lobby_limit player_id accept match_id s =
    let (g, settled) = answer_for player_id accept match_id s.queue in
    elim settled [
      | none ↦ record s { queue = g }
      | some p ↦
          if both_yes p
          then form_match connected now ruleset_known lobby_limit p (record s { queue = g })
          else settle_declined connected now p (decliner_of p).player_id "decline"
              (record s { queue = g })
    ]

-- The body of the first loop of `automatch_tick`.
unfoldable pub lapse : (connected : String → Bool) → (now : ℕ) → Pending → Desk → Desk
lapse connected now p s =
    let a_bad = not (is_answer true p.a_accept) in
    let b_bad = not (is_answer true p.b_accept) in
    if a_bad && b_bad
    then record s {
      strikes = s.strikes ++ strike_of p.a "timeout" p ∷ strike_of p.b "timeout" p ∷ [];
    }
    else settle_declined connected now p (if a_bad then p.a.player_id else p.b.player_id) "timeout"
        s

pub lapse_all : (connected : String → Bool) → (now : ℕ) → List Pending → Desk → Desk
lapse_all connected now [] s = s
lapse_all connected now (p ∷ ps) s = lapse_all connected now ps (lapse connected now p s)

unfoldable pub run_pairing : (uuid : ℕ → String) → (now cooldown : ℕ) → Desk → Desk
run_pairing uuid now cooldown s = record s { queue = (pair uuid now cooldown s.queue).0 }

unfoldable pub automatch_tick :
    (connected : String → Bool) → (uuid : ℕ → String) → (now accept_secs cooldown : ℕ) → Desk → Desk
automatch_tick connected uuid now accept_secs cooldown s =
    let (g, expired) = take_expired now accept_secs s.queue in
    run_pairing uuid now cooldown (lapse_all connected now expired (record s { queue = g }))

-- What `handle_automatch_queue` reads of the client and of its message before it looks at the queue.
pub record Attempt : Type 0 where
  pub automatch_on : Bool
  pub account : Option String
  pub in_lobby : Bool
  pub mods_enabled : Bool
  -- the key list, or the code that `build_keys` refuses with
  pub keys_refused : Option String
  pub mod_refused : Bool
  pub cooldown : ℕ
  pub endpoint_ok : Bool

-- The refusals of `handle_automatch_queue` in their order; none means that the ticket is pushed.
unfoldable pub queue_refusal : (queue_max : ℕ) → QueueInner → Attempt → Option String
queue_refusal queue_max g r = elim r.account [
  | none ↦ if r.automatch_on then some "need_account" else some "automatch_off"
  | some account_id ↦
      if not r.automatch_on
      then some "automatch_off"
      else if r.in_lobby
      then some "already_in_lobby"
      else if is_queued_account g account_id
      then some "already_queued"
      else if r.mods_enabled
      then some "mods_not_pooled"
      else if is_some r.keys_refused
      then r.keys_refused
      else if r.mod_refused
      then some "mod_not_approved"
      else if not (leb r.cooldown 0)
      then some "cooldown"
      else if leb queue_max (waiting g)
      then some "queue_full"
      else if not r.endpoint_ok
      then some "bad_host_endpoint"
      else none
]

-- `seen` is the queue at the check of the account; the queries of the mods and of the cooldown and the
-- search of the endpoint come between it and the push.
unfoldable pub handle_automatch_queue :
    (queue_max : ℕ)
    → (uuid : ℕ → String) → (now cooldown : ℕ) → (seen : QueueInner) → Attempt
    → Ticket
    → Desk
    → Desk × Option String
handle_automatch_queue queue_max uuid now cooldown seen r t s =
    elim (queue_refusal queue_max seen r) [
      | some code ↦ (s, some code)
      | none ↦ (run_pairing uuid now cooldown (record s { queue = push t s.queue }), none)
    ]

unfoldable pub handle_automatch_rtt : String → ℤ → Desk → Desk
handle_automatch_rtt player_id rtt s = record s {
  queue = (set_rtt player_id (sanitize_rtt rtt) s.queue).0;
}
