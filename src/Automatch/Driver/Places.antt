-- ===== src/Automatch/Driver/Places.antt =====
-- While every handler runs to its end before the next starts, an account has at most one place in the
-- queue (src/ws_lobby.rs, the automatch handlers).
use recomp_net_server.Common.{
  ℕ, ◌+◌, ◌≤◌, ◌≡◌, ◌==◌, ==_refl, subst, false, true, inl, inr, ap, Bool, Option, List, [], ◌∷◌,
  String, arith, Option-cases, Bool-cases, if◌then◌else◌, string_eq,
}
use recomp_net_server.Automatch.Ticket.{Ticket, Pending}
use recomp_net_server.Automatch.Queue.{
  is_queued_account, push, remove_player, answer_for, take_expired, note_pairing,
}
use recomp_net_server.Automatch.Queue.Offers.{seats}
use recomp_net_server.Automatch.Queue.Accounts.{
  places, OnePlace, seated, holds, places_of_unqueued, places-push, places-requeue_front,
  places-pair, places-remove_player, places-remove_player-le, places-take_expired,
  places-answer_for,
}
use recomp_net_server.Automatch.Driver.{
  Desk, other_of, settle_declined, handle_automatch_cancel, survivor_of, form_match, decliner_of,
  handle_automatch_accept, put_back, requeue_both, lapse, lapse_all, run_pairing, automatch_tick,
}

module _ (x : String) (connected : String → Bool) (now : ℕ) where
  settle_declined-le :
      (p : Pending) (loser kind : String) (s : Desk)
      → places x (settle_declined connected now p loser kind s).queue
        ≤ places x s.queue + seated x p
  unfolding settle_declined
  settle_declined-le p loser kind s =
      ground (arith, places-requeue_front x now (other_of p loser) s.queue)

  form_match-le :
      (known full : Bool) (p : Pending) (s : Desk)
      → places x (form_match connected now known full p s).queue ≤ places x s.queue + seated x p
  unfolding form_match note_pairing
  form_match-le known full p s = ground (
    arith,
    places-requeue_front x now (survivor_of connected p)
        (note_pairing now p.a.account_id p.b.account_id s.queue),
  )

  lapse-le :
      (p : Pending) (s : Desk)
      → places x (lapse connected now p s).queue ≤ places x s.queue + seated x p
  unfolding lapse
  lapse-le p s = ground (
    arith,
    settle_declined-le p p.a.player_id "timeout" s,
    settle_declined-le p p.b.player_id "timeout" s,
  )

  lapse_all-le :
      (ps : List Pending) (s : Desk)
      → places x (lapse_all connected now ps s).queue ≤ places x s.queue + holds x (seats ps)
  unfolding lapse_all
  lapse_all-le [] s = omega arith
  lapse_all-le (p ∷ ps) s = omega (arith, lapse_all-le ps (lapse connected now p s), lapse-le p s)

  cancel-le :
      (player : String) (s : Desk)
      → places x (handle_automatch_cancel connected now player s).queue ≤ places x s.queue
  unfolding handle_automatch_cancel
  cancel-le player s = elim (Option-cases (remove_player player s.queue).1) [
    | inl e ↦ rw (e, handle_automatch_cancel) (places-remove_player-le x player s.queue)
    | inr (p, e) ↦
        rw (e, handle_automatch_cancel)
          (omega (
            arith,
            places-remove_player x player s.queue p e,
            settle_declined-le p player "timeout"
                (record s { queue = (remove_player player s.queue).0 }),
          ))
  ]

  accept-le :
      (known full : Bool) (player : String) (accept : Bool) (m : Option String) (s : Desk)
      → places x (handle_automatch_accept connected now known full player accept m s).queue
        ≤ places x s.queue
  unfolding handle_automatch_accept
  accept-le known full player accept m s =
      let g = (answer_for player accept m s.queue).0 in
      elim (Option-cases (answer_for player accept m s.queue).1) [
        | inl e ↦ ground (arith, places-answer_for x player accept m s.queue)
        | inr (p, e) ↦ ground (
          arith,
          places-answer_for x player accept m s.queue,
          form_match-le known full p (record s { queue = g }),
          settle_declined-le p (decliner_of p).player_id "decline" (record s { queue = g }),
        )
      ]

  tick-le :
      (uuid : ℕ → String) (accept_secs cooldown : ℕ) (s : Desk)
      → places x (automatch_tick connected uuid now accept_secs cooldown s).queue ≤ places x s.queue
  unfolding automatch_tick run_pairing
  tick-le uuid accept_secs cooldown s =
      let r = take_expired now accept_secs s.queue in
      let mid = lapse_all connected now r.1 (record s { queue = r.0 }) in
      omega (
        arith,
        places-take_expired x now accept_secs s.queue,
        lapse_all-le r.1 (record s { queue = r.0 }),
        places-pair x uuid now cooldown mid.queue,
      )

  requeue_both-le :
      (p : Pending) (s : Desk)
      → places x (requeue_both connected now p s).queue ≤ places x s.queue + seated x p
  unfolding requeue_both
  requeue_both-le p s =
      let mid = put_back connected now p.a s in
      ground
        (arith, places-requeue_front x now p.a s.queue, places-requeue_front x now p.b mid.queue)

-- What happens to the queue: an attempt that passed its checks, pushed and paired at once; a
-- cancellation or a disconnect; an answer; a tick; the return of a pair whose relay was not reachable.
pub data Event : Type 0 where
  queues : Ticket → Event
  cancels : String → Event
  accepts : (ruleset_known lobby_limit : Bool) → String → Bool → Option String → Event
  ticks : Event
  unreached : Pending → Event

-- When a pair comes back, its accounts are two, and neither has a place.
unfoldable pub Returns : Event → Desk → Type 0
Returns (queues t) s = Unit
Returns (cancels player) s = Unit
Returns (accepts known full player accept m) s = Unit
Returns ticks s = Unit
Returns (unreached p) s =
    ((p.a.account_id == p.b.account_id) ≡ false)
    × (places p.a.account_id s.queue ≡ 0)
    × (places p.b.account_id s.queue ≡ 0)

module _ (connected : String → Bool) (uuid : ℕ → String) (accept_secs cooldown : ℕ) where
  -- Each event comes with the clock's reading.
  unfoldable pub handle : ℕ × Event → Desk → Desk
  handle (now, queues t) s =
      if is_queued_account s.queue t.account_id
      then s
      else run_pairing uuid now cooldown (record s { queue = push t s.queue })
  handle (now, cancels player) s = handle_automatch_cancel connected now player s
  handle (now, accepts known full player accept m) s =
      handle_automatch_accept connected now known full player accept m s
  handle (now, ticks) s = automatch_tick connected uuid now accept_secs cooldown s
  handle (now, unreached p) s = requeue_both connected now p s

  unfoldable pub handle_all : List (ℕ × Event) → Desk → Desk
  unfolding handle
  handle_all [] s = s
  handle_all (e ∷ es) s = handle_all es (handle e s)

  unfoldable pub Undisturbed : List (ℕ × Event) → Desk → Type 0
  unfolding handle
  Undisturbed [] s = Unit
  Undisturbed (e ∷ es) s = Returns e.1 s × Undisturbed es (handle e s)

  handle-OnePlace :
      (e : ℕ × Event) (s : Desk) → Returns e.1 s → OnePlace s.queue → OnePlace (handle e s).queue
  unfolding handle run_pairing Returns
  handle-OnePlace (now, queues t) s u h x =
      elim (Bool-cases (is_queued_account s.queue t.account_id)) [
        | inl q ↦ rw q (h x)
        | inr q ↦
            rw (q, places-pair x uuid now cooldown (push t s.queue), places-push x t s.queue)
              (ground (
                arith,
                h x,
                string_eq.equal_iff t.account_id x,
                ap (λ b. b) (places_of_unqueued s.queue t.account_id q),
              ))
      ]
  handle-OnePlace (now, cancels player) s u h x =
      omega (arith, h x, cancel-le x connected now player s)
  handle-OnePlace (now, accepts known full player accept m) s u h x =
      omega (arith, h x, accept-le x connected now known full player accept m s)
  handle-OnePlace (now, ticks) s u h x =
      omega (arith, h x, tick-le x connected now uuid accept_secs cooldown s)
  handle-OnePlace (now, unreached p) s (apart, free_a, free_b) h x =
      elim (Bool-cases (p.a.account_id == x)) [
        | inl ea ↦
            let free : places x s.queue ≡ 0 =
              subst (λ y. places y s.queue ≡ 0) {x = p.a.account_id} {y = x}
                ((string_eq.equal_iff p.a.account_id x).0 ea) free_a in
            let other : (p.b.account_id == x) ≡ false = ground (
              arith,
              apart,
              string_eq.equal_iff p.a.account_id x,
              string_eq.equal_iff p.b.account_id x,
              string_eq.equal_iff p.a.account_id p.b.account_id,
            ) in
            ground (arith, requeue_both-le x connected now p s, free, ea, other)
        | inr na ↦ (elim (Bool-cases (p.b.account_id == x)) [
          | inl eb ↦
              let free : places x s.queue ≡ 0 =
                subst (λ y. places y s.queue ≡ 0) {x = p.b.account_id} {y = x}
                  ((string_eq.equal_iff p.b.account_id x).0 eb) free_b in
              ground (arith, requeue_both-le x connected now p s, free, na, eb)
          | inr nb ↦ ground (arith, requeue_both-le x connected now p s, na, nb, h x)
        ])
      ]

  -- If no account has two places among the waiting tickets and the seats of the pending offers, none has
  -- after any attempts, cancellations, answers, ticks and returns of pairs whose relay was not
  -- reachable, each handled to its end before the next, as long as the accounts of a pair that returns are two and
  -- neither has taken another place by then.
  pub handle_all-OnePlace :
      (es : List (ℕ × Event)) (s : Desk)
      → Undisturbed es s
      → OnePlace s.queue
      → OnePlace (handle_all es s).queue
  unfolding handle_all Undisturbed
  handle_all-OnePlace [] s u h = h
  handle_all-OnePlace (e ∷ es) s (r, u) h =
      handle_all-OnePlace es (handle e s) u (handle-OnePlace e s r h)

-- When the relay was not reachable the pair goes back to the queue unchecked: the first player, if it is
-- connected and its account has taken a place since on another connection, has two places then.
pub requeue_both_two_places :
    (connected : String → Bool) (now : ℕ) (p : Pending) (s : Desk)
    → connected p.a.player_id ≡ true
    → 1 ≤ places p.a.account_id s.queue
    → 2 ≤ places p.a.account_id (requeue_both connected now p s).queue
unfolding requeue_both
requeue_both_two_places connected now p s here again =
    let mid = put_back connected now p.a s in
    ground (
      arith,
      here,
      ==_refl p.a.account_id,
      places-requeue_front p.a.account_id now p.a s.queue,
      places-requeue_front p.a.account_id now p.b mid.queue,
    )
