-- ===== src/Automatch/Driver/Examples.antt =====
-- Instances of the theorems on the automatch handlers of src/ws_lobby.rs.
use recomp_net_server.Common.{
  ℕ, ◌≤◌, ◌≡◌, ◌≢◌, refl, Bool, true, false, none, some, List, [], ◌∷◌, ◌++◌, String, ◌==◌, arith,
  string_eq,
}
use recomp_net_server.Automatch.Ticket.{answered}
use recomp_net_server.Automatch.Queue.{empty, push, waiting, is_queued_account, take_expired}
use recomp_net_server.Automatch.Queue.Accounts.{OnePlace, places}
use recomp_net_server.Automatch.Queue.Examples.{amy, ben, cat, names, half_accepted, offering}
use recomp_net_server.Automatch.Driver.{
  Desk, Attempt, queue_refusal, handle_automatch_queue, requeue_both, form_match, automatch_tick,
}
use recomp_net_server.Automatch.Driver.Places.{
  Event, queues, cancels, accepts, ticks, unreached, handle_all, handle_all-OnePlace, Returns,
  Undisturbed, requeue_both_two_places,
}
use recomp_net_server.Automatch.Driver.Races.{race_two_places}
use recomp_net_server.Automatch.Driver.Strikes.{all_charges, tick_charges, form_match_strands}

abbrev all_here : String → Bool
all_here player = true

abbrev amy_only : String → Bool
amy_only player = player == "p1"

abbrev blank : Desk
blank = record { queue = empty; strikes = [] }

abbrev desk : Desk
desk = record { queue = offering; strikes = [] }

-- Amy and Ben come back from a match without a relay and leave; they queue again and are offered a match; Amy accepts, Ben leaves, and the desk ticks.
abbrev evening : List (ℕ × Event)
evening =
    (7, unreached half_accepted)
    ∷ (8, cancels "p1")
    ∷ (9, cancels "p2")
    ∷ (10, queues amy)
    ∷ (11, queues ben)
    ∷ (12, queues amy)
    ∷ (13, accepts true false "p1" true none)
    ∷ (14, cancels "p2")
    ∷ (15, ticks)
    ∷ []

nobody_twice : OnePlace empty
nobody_twice x = omega arith

apart_accounts : (half_accepted.a.account_id == half_accepted.b.account_id) ≡ false
apart_accounts = refl

evening-Undisturbed : Undisturbed all_here names 20 180 evening blank
unfolding Undisturbed Returns
evening-Undisturbed =
    ((apart_accounts, refl, refl), (tt, (tt, (tt, (tt, (tt, (tt, (tt, (tt, tt)))))))))

handle_all-OnePlace_example : OnePlace (handle_all all_here names 20 180 evening blank).queue
handle_all-OnePlace_example =
    handle_all-OnePlace all_here names 20 180 evening blank evening-Undisturbed nobody_twice

-- Amy queues on another connection while her match is starting.
abbrev again : Desk
again = record { queue = push (record amy { player_id = "p9" }) empty; strikes = [] }

requeue_both_two_places_example :
    2 ≤ places half_accepted.a.account_id (requeue_both all_here 20 half_accepted again).queue
requeue_both_two_places_example =
    requeue_both_two_places all_here 20 half_accepted again refl (unfold push in omega arith)

abbrev attempt : Attempt
attempt = record {
  automatch_on = true;
  account = some "amy";
  in_lobby = false;
  mods_enabled = false;
  keys_refused = none;
  mod_refused = false;
  cooldown = 0;
  endpoint_ok = true;
}

allowed : queue_refusal 64 empty attempt ≡ none
unfolding queue_refusal is_queued_account waiting
allowed = refl

race_two_places_example :
    let amy' = record amy { player_id = "p9" } in
    let mid = (handle_automatch_queue 64 names 20 180 empty attempt amy blank).0 in
    2 ≤ places "amy" (handle_automatch_queue 64 names 20 180 empty attempt amy' mid).0.queue
race_two_places_example =
    race_two_places 64 names 20 180 blank attempt attempt amy (record amy { player_id = "p9" }) refl
      allowed allowed

apart_players : half_accepted.a.player_id ≢ half_accepted.b.player_id
apart_players = ground (arith, string_eq.equal_iff "p1" "p2")

tick_charges_example :
    (automatch_tick all_here names 30_000_000_010 20 180 desk).strikes
    ≡ [] ++ all_charges (take_expired 30_000_000_010 20 offering).1
unfolding answered
tick_charges_example =
    tick_charges all_here names 30_000_000_010 20 180 desk (refl, tt) (apart_players, tt)

form_match_strands_example :
    (form_match amy_only 20 true false
      (record half_accepted { b_accept = some true })
      desk).queue.tickets
    ≡ cat ∷ []
form_match_strands_example =
    form_match_strands amy_only 20 true false (record half_accepted { b_accept = some true }) desk
      apart_players (λ p. absurd (ground (arith, p)))
