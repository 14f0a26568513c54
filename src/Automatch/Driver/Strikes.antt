-- ===== src/Automatch/Driver/Strikes.antt =====
-- Who is charged and who goes back to the queue when an offer falls through (src/ws_lobby.rs).
use mathlib.Core.List.{append-nil, append_assoc}
use recomp_net_server.Common.{
  ℕ, ◌≡◌, ◌≢◌, sym, ap, ◌∙◌, Bool, true, false, Option, some, List, [], ◌∷◌, ◌++◌, String, arith,
  if◌then◌else◌, string_eq, ◌==◌, find, All, All-find, All-retain, find-eq-some,
}
use recomp_net_server.Automatch.Ticket.{Ticket, Pending, is_answer, side, answered}
use recomp_net_server.Automatch.Queue.{
  is_half, record_answer, names_other, take_expired, has_expired, note_pairing, requeue_front,
}
use recomp_net_server.Automatch.Queue.Answers.{IsWaiting, AllWaiting, answer_for_settles}
use recomp_net_server.Automatch.Driver.{
  Strike, Desk, strike_of, loser_of, other_of, settle_declined, form_match, decliner_of,
  handle_automatch_accept, lapse, lapse_all, run_pairing, automatch_tick,
}

-- The two sides of an offer are two connections.
abbrev pub TwoPlayers : Pending → Type 0
TwoPlayers p = p.a.player_id ≢ p.b.player_id

-- One strike for each side of an offer that has not accepted, side `a` first.
abbrev pub charges : Pending → List Strike
charges p =
    (if is_answer true p.a_accept then [] else strike_of p.a "timeout" p ∷ [])
    ++ (if is_answer true p.b_accept then [] else strike_of p.b "timeout" p ∷ [])

abbrev pub all_charges : List Pending → List Strike
all_charges [] = []
all_charges (p ∷ ps) = charges p ++ all_charges ps

lapse-charges :
    (connected : String → Bool) (now : ℕ) (p : Pending) (s : Desk)
    → IsWaiting p
    → TwoPlayers p
    → (lapse connected now p s).strikes ≡ s.strikes ++ charges p
unfolding lapse settle_declined answered
lapse-charges connected now p s w d = ground (
  arith,
  string_eq.equal_iff p.a.player_id p.b.player_id,
  string_eq.equal_iff p.a.player_id p.a.player_id,
)

lapse_all_charges :
    (connected : String → Bool) (now : ℕ) (ps : List Pending) (s : Desk)
    → All IsWaiting ps
    → All TwoPlayers ps
    → (lapse_all connected now ps s).strikes ≡ s.strikes ++ all_charges ps
unfolding lapse_all
lapse_all_charges connected now [] s w d = sym (append-nil s.strikes)
lapse_all_charges connected now (p ∷ ps) s w d =
    lapse_all_charges connected now ps (lapse connected now p s) w.1 d.1
    ∙ ap (λ l. l ++ all_charges ps) (lapse-charges connected now p s w.0 d.0)
    ∙ append_assoc s.strikes (charges p) (all_charges ps)

-- While no offer of the queue is decided and the sides of each are two connections, a tick charges
-- each side of a lapsed offer that has not accepted, once, and nobody else: a side that accepted
-- is never charged for the other's silence.
pub tick_charges :
    (connected : String → Bool) (uuid : ℕ → String) (now accept_secs cooldown : ℕ) (s : Desk)
    → AllWaiting s.queue
    → All TwoPlayers s.queue.pending
    → (automatch_tick connected uuid now accept_secs cooldown s).strikes
      ≡ s.strikes ++ all_charges (take_expired now accept_secs s.queue).1
unfolding automatch_tick run_pairing take_expired
tick_charges connected uuid now accept_secs cooldown s w d =
    lapse_all_charges connected now _ _
      (All-retain IsWaiting (has_expired now accept_secs) s.queue.pending w)
      (All-retain TwoPlayers (has_expired now accept_secs) s.queue.pending d)

-- The player's own ticket in an offer, and its opponent's.
abbrev pub own_ticket : String → Pending → Ticket
own_ticket player_id p = if p.a.player_id == player_id then p.a else p.b

abbrev pub opponent : String → Pending → Ticket
opponent player_id p = if p.a.player_id == player_id then p.b else p.a

refusal_sides :
    (player_id : String) (p : Pending)
    → IsWaiting p
    → TwoPlayers p
    → is_half player_id p ≡ true
    → let q = record_answer player_id false p in
      let loser = (decliner_of q).player_id in
      (loser_of q loser ≡ own_ticket player_id p)
      × (other_of q loser ≡ opponent player_id p)
      × (q.key ≡ p.key)
unfolding record_answer answered side
refusal_sides player_id p w d h = ground (
  arith,
  string_eq.equal_iff p.a.player_id p.a.player_id,
  string_eq.equal_iff p.a.player_id p.b.player_id,
  string_eq.equal_iff p.a.player_id player_id,
  string_eq.equal_iff p.b.player_id player_id,
)

-- While no offer of the queue is decided, a refusal of the player's own offer (between two
-- connections, and the one that the answer names, if it names any) charges the refuser alone, and
-- puts the opponent, if it is still connected, at the front of the queue with a new waiting time.
pub refusal_charges :
    (connected : String → Bool) (now : ℕ) (known full : Bool) (player_id : String)
    (m : Option String) (s : Desk) (p : Pending)
    → AllWaiting s.queue
    → TwoPlayers p
    → find (is_half player_id) s.queue.pending ≡ some p
    → names_other m p ≡ false
    → let r = handle_automatch_accept connected now known full player_id false m s in
      (r.strikes ≡ s.strikes ++ strike_of (own_ticket player_id p) "decline" p ∷ [])
      × (r.queue.tickets ≡ (
          if connected (opponent player_id p).player_id
          then record (opponent player_id p) { queued_at = now } ∷ s.queue.tickets
          else s.queue.tickets))
unfolding handle_automatch_accept settle_declined requeue_front
refusal_charges connected now known full player_id m s p w d f n =
    let settled = answer_for_settles player_id false m s.queue p w f n in
    let half = find-eq-some (is_half player_id) s.queue.pending p f in
    let sides =
      refusal_sides player_id p (All-find IsWaiting (is_half player_id) s.queue.pending p w f) d
        half in
    let q = record_answer player_id false p in
    (ground (arith, settled, sides), ground (arith, settled, sides))

-- When both sides of an offer, two connections, have accepted and exactly one of them is still
-- connected, the survivor is not put back: `form_match` takes the connected side for the one that
-- is gone, so no ticket is added.
pub form_match_strands :
    (connected : String → Bool) (now : ℕ) (known full : Bool) (p : Pending) (s : Desk)
    → TwoPlayers p
    → connected p.a.player_id ≢ connected p.b.player_id
    → (form_match connected now known full p s).queue.tickets ≡ s.queue.tickets
unfolding form_match note_pairing
form_match_strands connected now known full p s d c = ground (
  arith,
  string_eq.equal_iff p.a.player_id p.a.player_id,
  string_eq.equal_iff p.b.player_id p.a.player_id,
)
