-- ===== src/Automatch/Queue/Examples.antt =====
-- Concrete queues, and instances of the theorems on `Queue` of src/automatch.rs.
use mathlib.Core.List.{Perm}
use recomp_net_server.Common.{
  ℕ, ◌≡◌, inl, inr, refl, true, false, none, some, [], ◌∷◌, ◌++◌, String, arith, All, string_eq,
}
use recomp_net_server.Common.Int.{ℤ, pos}
use recomp_net_server.Automatch.Ticket.{
  MatchKey, key_eq, Ticket, Pending, rematch_ok, blocked, relay_possible, measurable, rtt_ok,
}
use recomp_net_server.Automatch.Queue.{
  QueueInner, find_pair, find_pair_pass, scan_tickets, scan_keys, scan_partners, eligible, pair,
  pair_loop, forget,
}
use recomp_net_server.Automatch.Queue.Pairing.{Compatible}
use recomp_net_server.Automatch.Queue.Offers.{
  IsSoundOffer, seats, pair_conserves, pair_sound, pair_exhausts,
}

abbrev pub game_key : MatchKey
game_key = record {
  game_name = "motk";
  game_version = "1.0";
  disc_fp = "";
  ruleset_id = "default";
  max_slots = 2;
}

abbrev pub ticket : String → String → ℤ → ℕ → Ticket
ticket player account rtt at = record {
  player_id = player;
  account_id = account;
  handle = player;
  username = player;
  country = "";
  keys = game_key ∷ [];
  host_bind = "";
  guest_bind = "";
  relay_endpoint = some "203.0.113.7:4000";
  ice_relay = false;
  queued_at = at;
  rtt_ms = rtt;
  blocks = [];
}

abbrev pub amy : Ticket
amy = ticket "p1" "amy" (pos 30) 1

abbrev pub ben : Ticket
ben = ticket "p2" "ben" (pos 40) 2

abbrev pub cat : Ticket
cat = ticket "p3" "cat" (pos 900) 3

abbrev pub three : QueueInner
three = record { tickets = amy ∷ ben ∷ cat ∷ []; pending = []; recent = [] }

abbrev pub names : ℕ → String
names n = "m"

pair_conserves_example :
    let r = pair names 10 180 three in
    Perm three.tickets (seats r.1 ++ r.0.tickets) × (r.0.pending ≡ three.pending ++ r.1)
pair_conserves_example = pair_conserves names 10 180 three

pair_sound_example : All (IsSoundOffer 10) (pair names 10 180 three).1
pair_sound_example = pair_sound names 10 180 three

-- Two whose link is too long for now.
abbrev apart : QueueInner
apart = record { tickets = amy ∷ cat ∷ []; pending = []; recent = [] }

apart_stays : (pair names 10 180 apart).0 ≡ apart
unfolding pair pair_loop forget find_pair find_pair_pass scan_tickets scan_keys scan_partners
    eligible blocked relay_possible measurable rtt_ok
apart_stays = refl

pair_exhausts_example : ¬ Compatible 10 game_key amy cat
pair_exhausts_example =
    pair_exhausts names 10 180 apart 0 1 amy cat game_key (rw apart_stays refl)
      (rw apart_stays refl) (omega arith)

abbrev pub met_before : QueueInner
met_before = record {
  tickets = amy ∷ ben ∷ [];
  pending = [];
  recent = record { first = "ben"; second = "amy"; at = 5 } ∷ [];
}

may_meet : Compatible 10 game_key amy ben
may_meet = record {
  a_key = refl;
  b_key = refl;
  accounts = ground (arith, string_eq.equal_iff "amy" "ben");
  a_admits = refl;
  b_admits = refl;
  relay = inl refl;
  a_measured = inl refl;
  b_measured = inl refl;
  near = inr (inr (inr (omega arith)));
}

found_again : find_pair met_before 10 180 ≡ some (0, 1, game_key)
unfolding find_pair find_pair_pass scan_tickets scan_keys scan_partners eligible blocked
    relay_possible measurable rtt_ok rematch_ok
found_again = refl

have_met : rematch_ok met_before.recent 10 180 amy ben ≡ false
unfolding rematch_ok
have_met = refl

-- Amy has accepted, Ben has not answered.
abbrev pub half_accepted : Pending
half_accepted = record {
  match_id = "m";
  key = game_key;
  a = amy;
  b = ben;
  a_accept = some true;
  b_accept = none;
  offered_at = 10;
}

abbrev pub offering : QueueInner
offering = record { tickets = cat ∷ []; pending = half_accepted ∷ []; recent = [] }
