-- ===== src/Automatch/Driver/Races.antt =====
-- `handle_automatch_queue` of src/ws_lobby.rs checks that the account is not queued and pushes the ticket
-- later, under another lock. What two attempts can do to each other.
use recomp_net_server.Common.{ℕ, ◌≤◌, ◌≡◌, none, String, arith, string_eq, ==_refl}
use recomp_net_server.Automatch.Ticket.{Ticket}
use recomp_net_server.Automatch.Queue.{QueueInner, push}
use recomp_net_server.Automatch.Queue.Accounts.{places, places-push, places-pair}
use recomp_net_server.Automatch.Driver.{
  Desk, Attempt, queue_refusal, run_pairing, handle_automatch_queue,
}

module _ (queue_max : ℕ) (uuid : ℕ → String) (now cooldown : ℕ) where
  pushed-places :
      (x : String) (seen : QueueInner) (r : Attempt) (t : Ticket) (s : Desk)
      → queue_refusal queue_max seen r ≡ none
      → places x (handle_automatch_queue queue_max uuid now cooldown seen r t s).0.queue
        ≡ places x (push t s.queue)
  unfolding handle_automatch_queue run_pairing
  pushed-places x seen r t s free =
      rw (handle_automatch_queue, free) (places-pair x uuid now cooldown (push t s.queue))

  -- Two attempts of one account on two connections that are both checked against the queue as it stands: if
  -- none is refused there, both push and pair, and the account holds two places at least.
  pub race_two_places :
      (s : Desk) (r q : Attempt) (t u : Ticket)
      → t.account_id ≡ u.account_id
      → queue_refusal queue_max s.queue r ≡ none
      → queue_refusal queue_max s.queue q ≡ none
      → let mid = (handle_automatch_queue queue_max uuid now cooldown s.queue r t s).0 in
        2
        ≤ places t.account_id
            (handle_automatch_queue queue_max uuid now cooldown s.queue q u mid).0.queue
  race_two_places s r q t u same first second =
      let mid = (handle_automatch_queue queue_max uuid now cooldown s.queue r t s).0 in
      ground (
        arith,
        pushed-places t.account_id s.queue r t s first,
        pushed-places t.account_id s.queue q u mid second,
        places-push t.account_id t s.queue,
        places-push t.account_id u mid.queue,
        ==_refl t.account_id,
        string_eq.equal_iff u.account_id t.account_id,
        same,
      )
