-- ===== src/Automatch/Driver/Waiting.antt =====
-- The offers that the queue keeps between events are open ones (src/automatch.rs and the automatch
-- handlers of src/ws_lobby.rs).
use recomp_net_server.Common.{
  ℕ, ◌≡◌, inl, inr, refl, sym, subst, ◌∙◌, Bool, not, Option, List, [], ◌∷◌, String, arith,
  Option-cases, Bool-cases, find, All, All-append, All-retain, All-imp,
}
use recomp_net_server.Automatch.Ticket.{Pending, answered}
use recomp_net_server.Automatch.Queue.{
  QueueInner, is_queued_account, is_half, names_other, push, remove_player, requeue_front,
  answer_for, take_expired, has_expired, note_pairing, pair,
}
use recomp_net_server.Automatch.Queue.Offers.{pair_conserves, pair_sound, IsSoundOffer}
use recomp_net_server.Automatch.Queue.Answers.{
  IsWaiting, AllWaiting, All-remove_first, answer_for_settles,
}
use recomp_net_server.Automatch.Driver.{
  Desk, settle_declined, handle_automatch_cancel, form_match, decliner_of, handle_automatch_accept,
  requeue_both, lapse, lapse_all, run_pairing, automatch_tick,
}
use recomp_net_server.Automatch.Driver.Places.{
  Event, queues, cancels, accepts, ticks, unreached, handle, handle_all,
}

sound_waits : (now : ℕ) (p : Pending) → IsSoundOffer now p → IsWaiting p
unfolding answered
sound_waits now p s = ground (arith, s.unanswered_a, s.unanswered_b)

pair-AllWaiting :
    (uuid : ℕ → String) (now cooldown : ℕ) (g : QueueInner)
    → AllWaiting g
    → AllWaiting (pair uuid now cooldown g).0
pair-AllWaiting uuid now cooldown g w =
    let (_, queued) = pair_conserves uuid now cooldown g in
    subst (All IsWaiting) (sym queued) (
      All-append IsWaiting g.pending (pair uuid now cooldown g).1 w
        (All-imp (IsSoundOffer now) IsWaiting _ (sound_waits now) (pair_sound uuid now cooldown g)))

answer_for-AllWaiting :
    (player : String) (accept : Bool) (m : Option String) (g : QueueInner)
    → AllWaiting g
    → AllWaiting (answer_for player accept m g).0
answer_for-AllWaiting player accept m g w = elim (Option-cases (find (is_half player) g.pending)) [
  | inl e ↦
      subst AllWaiting {x = g} {y = (answer_for player accept m g).0}
        (unfold answer_for in ground arith) w
  | inr (p, e) ↦ (elim (Bool-cases (names_other m p)) [
    | inl n ↦
        subst AllWaiting {x = g} {y = (answer_for player accept m g).0}
          (unfold answer_for in ground arith) w
    | inr n ↦ (answer_for_settles player accept m g p w e n).3
  ])
]

module _ (connected : String → Bool) (now : ℕ) where
  pending-settle_declined :
      (p : Pending) (loser kind : String) (s : Desk)
      → (settle_declined connected now p loser kind s).queue.pending ≡ s.queue.pending
  unfolding settle_declined requeue_front
  pending-settle_declined p loser kind s = ground arith

  pending-form_match :
      (known full : Bool) (p : Pending) (s : Desk)
      → (form_match connected now known full p s).queue.pending ≡ s.queue.pending
  unfolding form_match note_pairing requeue_front
  pending-form_match known full p s = ground arith

  pending-lapse :
      (p : Pending) (s : Desk) → (lapse connected now p s).queue.pending ≡ s.queue.pending
  unfolding lapse
  pending-lapse p s = ground (
    arith,
    pending-settle_declined p p.a.player_id "timeout" s,
    pending-settle_declined p p.b.player_id "timeout" s,
  )

  pending-lapse_all :
      (ps : List Pending) (s : Desk)
      → (lapse_all connected now ps s).queue.pending ≡ s.queue.pending
  unfolding lapse_all
  pending-lapse_all [] s = refl
  pending-lapse_all (p ∷ ps) s = pending-lapse_all ps (lapse connected now p s) ∙ pending-lapse p s

  pending-accept :
      (known full : Bool) (player : String) (accept : Bool) (m : Option String) (s : Desk)
      → (handle_automatch_accept connected now known full player accept m s).queue.pending
        ≡ (answer_for player accept m s.queue).0.pending
  unfolding handle_automatch_accept
  pending-accept known full player accept m s =
      let g = (answer_for player accept m s.queue).0 in
      elim (Option-cases (answer_for player accept m s.queue).1) [
        | inl e ↦ ground arith
        | inr (p, e) ↦ ground (
          arith,
          pending-form_match known full p (record s { queue = g }),
          pending-settle_declined p (decliner_of p).player_id "decline" (record s { queue = g }),
        )
      ]

  pending-cancel :
      (player : String) (s : Desk)
      → (handle_automatch_cancel connected now player s).queue.pending
        ≡ (remove_player player s.queue).0.pending
  unfolding handle_automatch_cancel
  pending-cancel player s =
      let g = (remove_player player s.queue).0 in
      elim (Option-cases (remove_player player s.queue).1) [
        | inl e ↦ ground arith
        | inr (p, e) ↦
            ground (arith, pending-settle_declined p player "timeout" (record s { queue = g }))
      ]

  pending-requeue_both :
      (p : Pending) (s : Desk) → (requeue_both connected now p s).queue.pending ≡ s.queue.pending
  unfolding requeue_both requeue_front
  pending-requeue_both p s = ground arith

module _ (connected : String → Bool) (uuid : ℕ → String) (accept_secs cooldown : ℕ) where
  handle-AllWaiting :
      (e : ℕ × Event) (s : Desk)
      → AllWaiting s.queue
      → AllWaiting (handle connected uuid accept_secs cooldown e s).queue
  unfolding handle run_pairing automatch_tick push remove_player take_expired
  handle-AllWaiting (now, queues t) s w =
      elim (Bool-cases (is_queued_account s.queue t.account_id)) [
        | inl q ↦ rw q w
        | inr q ↦ rw q (pair-AllWaiting uuid now cooldown (push t s.queue) w)
      ]
  handle-AllWaiting (now, cancels player) s w =
      subst (All IsWaiting) (sym (pending-cancel connected now player s))
        (All-remove_first IsWaiting (is_half player) s.queue.pending w)
  handle-AllWaiting (now, accepts known full player accept m) s w =
      subst (All IsWaiting) (sym (pending-accept connected now known full player accept m s))
        (answer_for-AllWaiting player accept m s.queue w)
  handle-AllWaiting (now, ticks) s w = pair-AllWaiting uuid now cooldown _ (
      subst (All IsWaiting) (sym (pending-lapse_all connected now _ _))
        (All-retain IsWaiting (λ p. not (has_expired now accept_secs p)) s.queue.pending w))
  handle-AllWaiting (now, unreached p) s w =
      subst (All IsWaiting) (sym (pending-requeue_both connected now p s)) w

  -- If no offer in the queue is decided (neither side has refused, and not both have answered),
  -- none is after any events; so every decided offer was handed to its handler.
  pub handle_all-AllWaiting :
      (es : List (ℕ × Event)) (s : Desk)
      → AllWaiting s.queue
      → AllWaiting (handle_all connected uuid accept_secs cooldown es s).queue
  unfolding handle_all
  handle_all-AllWaiting [] s w = w
  handle_all-AllWaiting (e ∷ es) s w = handle_all-AllWaiting es _ (handle-AllWaiting e s w)
