-- ===== src/Automatch/Queue/Accounts.antt =====
-- An account has at most one place in the queue of src/automatch.rs: a ticket, or a seat of an offer.
use mathlib.Core.List.{Perm, Permᴰ}
use mathlib.Core.Logic.{∥∥₁_elim}
use native.Mathlib.Nat.{ℕ_set}
use recomp_net_server.Common.{
  ℕ, ◌+◌, ◌≤◌, ◌≡◌, inl, inr, refl, subst, ap, ◌∙◌, Bool, false, not, ◌||◌, Option, none, some,
  List, [], ◌∷◌, ◌++◌, String, arith, Option-cases, Bool-cases, find, remove_first, update_first,
  retain, if◌then◌else◌, string_eq, ◌==◌, any,
}
use recomp_net_server.Automatch.Ticket.{Ticket, Pending}
use recomp_net_server.Automatch.Queue.{
  QueueInner, is_queued_account, is_half, record_answer, answer_for, remove_player, take_expired,
  has_expired, push, requeue_front, pair,
}
use recomp_net_server.Automatch.Queue.Offers.{seats, pair_conserves}

-- How often an account holds a ticket of the list.
abbrev pub holds : String → List Ticket → ℕ
holds x [] = 0
holds x (t ∷ ts) = (if t.account_id == x then 1 else 0) + holds x ts

-- How many places an account has in the queue.
abbrev pub places : String → QueueInner → ℕ
places x g = holds x g.tickets + holds x (seats g.pending)

-- No account has two places.
abbrev pub OnePlace : QueueInner → Type 0
OnePlace g = (x : String) → places x g ≤ 1

-- An account's seats of one offer.
abbrev pub seated : String → Pending → ℕ
seated x p = holds x (p.a ∷ p.b ∷ [])

seats-append : (ps qs : List Pending) → seats (ps ++ qs) ≡ seats ps ++ seats qs
seats-append [] qs = refl
seats-append (p ∷ ps) qs = ap (λ ts. p.a ∷ p.b ∷ ts) (seats-append ps qs)

holds-append : (x : String) (ts us : List Ticket) → holds x (ts ++ us) ≡ holds x ts + holds x us
holds-append x [] us = omega arith
holds-append x (t ∷ ts) us = omega (arith, holds-append x ts us)

holds-Permᴰ : (x : String) {ts us : List Ticket} → Permᴰ ts us → holds x ts ≡ holds x us
holds-Permᴰ x Permᴰ.nil = refl
holds-Permᴰ x (Permᴰ.cons e p) =
    omega (arith, ap (λ (t : Ticket). holds x (t ∷ [])) e, holds-Permᴰ x p)
holds-Permᴰ x (Permᴰ.swap e f) =
    omega (arith, ap (λ (t : Ticket). holds x (t ∷ [])) e, ap (λ (t : Ticket). holds x (t ∷ [])) f)
holds-Permᴰ x (Permᴰ.trans p q) = holds-Permᴰ x p ∙ holds-Permᴰ x q

holds-retain-le :
    (x : String) (p : Ticket → Bool) (ts : List Ticket) → holds x (retain p ts) ≤ holds x ts
holds-retain-le x p [] = omega arith
holds-retain-le x p (t ∷ ts) = ground (arith, holds-retain-le x p ts)

holds-remove_first :
    (x : String) (h : Pending → Bool) (ps : List Pending) (p : Pending)
    → find h ps ≡ some p
    → holds x (seats ps) ≡ seated x p + holds x (seats (remove_first h ps))
holds-remove_first x h [] p e = absurd (ground arith)
holds-remove_first x h (q ∷ ps) p e = elim (Bool-cases (h q)) [
  | inl s ↦
      (let same : q ≡ p = ground arith in
        rw s (
          subst (λ y. holds x (seats (q ∷ ps)) ≡ seated x y + holds x (seats ps)) same
            (omega arith)))
  | inr s ↦ rw s (omega (arith, holds-remove_first x h ps p (ground arith)))
]

holds-update_first :
    (x : String) (h : Pending → Bool) (f : Pending → Pending) (ps : List Pending)
    → ((p : Pending) → (f p).a ≡ p.a)
    → ((p : Pending) → (f p).b ≡ p.b)
    → holds x (seats (update_first h f ps)) ≡ holds x (seats ps)
holds-update_first x h f [] ka kb = refl
holds-update_first x h f (q ∷ ps) ka kb = elim (Bool-cases (h q)) [
  | inl s ↦ rw (s, ka q, kb q) refl
  | inr s ↦ rw s (omega (arith, holds-update_first x h f ps ka kb))
]

holds-split :
    (x : String) (h : Pending → Bool) (ps : List Pending)
    → holds x (seats ps)
      ≡ holds x (seats (retain h ps)) + holds x (seats (retain (λ p. not (h p)) ps))
holds-split x h [] = omega arith
holds-split x h (q ∷ ps) = elim (Bool-cases (h q)) [
  | inl s ↦ rw s (omega (arith, holds-split x h ps))
  | inr s ↦ rw s (omega (arith, holds-split x h ps))
]

holds-not_any :
    (x : String) (ts : List Ticket)
    → any (λ (t : Ticket). t.account_id == x) ts ≡ false
    → holds x ts ≡ 0
holds-not_any x [] h = refl
holds-not_any x (t ∷ ts) h = ground (arith, holds-not_any x ts)

seats-not_any :
    (x : String) (ps : List Pending)
    → any (λ (p : Pending). p.a.account_id == x || p.b.account_id == x) ps ≡ false
    → holds x (seats ps) ≡ 0
seats-not_any x [] h = refl
seats-not_any x (p ∷ ps) h = ground (arith, seats-not_any x ps)

-- An account that `is_queued_account` does not find has no place.
pub places_of_unqueued :
    (g : QueueInner) (x : String) → is_queued_account g x ≡ false → places x g ≡ 0
unfolding is_queued_account
places_of_unqueued g x h = ground (arith, holds-not_any x g.tickets, seats-not_any x g.pending)

holds-Perm : (x : String) {ts us : List Ticket} → Perm ts us → holds x ts ≡ holds x us
holds-Perm x {ts} {us} p = ∥∥₁_elim p (ℕ_set (holds x ts) (holds x us)) (holds-Permᴰ x)

-- What each operation does to the places of an account.
pub places-push :
    (x : String) (t : Ticket) (g : QueueInner)
    → places x (push t g) ≡ places x g + (if t.account_id == x then 1 else 0)
unfolding push
places-push x t g = omega (arith, holds-append x g.tickets (t ∷ []))

pub places-requeue_front :
    (x : String) (now : ℕ) (t : Ticket) (g : QueueInner)
    → places x (requeue_front now t g) ≡ places x g + (if t.account_id == x then 1 else 0)
unfolding requeue_front
places-requeue_front x now t g = omega arith

pub places-pair :
    (x : String) (uuid : ℕ → String) (now cooldown : ℕ) (g : QueueInner)
    → places x (pair uuid now cooldown g).0 ≡ places x g
places-pair x uuid now cooldown g =
    let (split, queued) = pair_conserves uuid now cooldown g in
    let r = pair uuid now cooldown g in
    omega (
      arith,
      holds-Perm x split,
      holds-append x (seats r.1) r.0.tickets,
      ap (λ ps. holds x (seats ps)) queued,
      ap (holds x) (seats-append g.pending r.1),
      holds-append x (seats g.pending) (seats r.1),
    )

pub places-remove_player :
    (x player_id : String) (g : QueueInner) (p : Pending)
    → (remove_player player_id g).1 ≡ some p
    → places x (remove_player player_id g).0 + seated x p ≤ places x g
unfolding remove_player
places-remove_player x player_id g p e = omega (
  arith,
  holds-remove_first x (is_half player_id) g.pending p e,
  holds-retain-le x (λ t. not (t.player_id == player_id)) g.tickets,
)

holds-remove_first-le :
    (x : String) (h : Pending → Bool) (ps : List Pending)
    → holds x (seats (remove_first h ps)) ≤ holds x (seats ps)
holds-remove_first-le x h [] = omega arith
holds-remove_first-le x h (q ∷ ps) = elim (Bool-cases (h q)) [
  | inl s ↦ rw s (omega arith)
  | inr s ↦ rw s (omega (arith, holds-remove_first-le x h ps))
]

pub places-remove_player-le :
    (x player_id : String) (g : QueueInner) → places x (remove_player player_id g).0 ≤ places x g
unfolding remove_player
places-remove_player-le x player_id g = omega (
  arith,
  holds-remove_first-le x (is_half player_id) g.pending,
  holds-retain-le x (λ t. not (t.player_id == player_id)) g.tickets,
)

pub places-take_expired :
    (x : String) (now accept_secs : ℕ) (g : QueueInner)
    → let r = take_expired now accept_secs g in places x r.0 + holds x (seats r.1) ≡ places x g
unfolding take_expired
places-take_expired x now accept_secs g =
    omega (arith, holds-split x (has_expired now accept_secs) g.pending)

record_answer-a :
    (player_id : String) (accept : Bool) (p : Pending) → (record_answer player_id accept p).a ≡ p.a
unfolding record_answer
record_answer-a player_id accept p = ground arith

record_answer-b :
    (player_id : String) (accept : Bool) (p : Pending) → (record_answer player_id accept p).b ≡ p.b
unfolding record_answer
record_answer-b player_id accept p = ground arith

seated-record_answer :
    (x player_id : String) (accept : Bool) (p : Pending)
    → seated x (record_answer player_id accept p) ≡ seated x p
seated-record_answer x player_id accept p =
    rw (record_answer-a player_id accept p, record_answer-b player_id accept p) refl

-- An answer takes the settled offer out of the queue, with both its seats, and otherwise no place
-- changes.
pub places-answer_for :
    (x player_id : String) (accept : Bool) (m : Option String) (g : QueueInner)
    → let r = answer_for player_id accept m g in
      places x r.0 + (elim r.1 [ none ↦ 0 | some q ↦ seated x q ]) ≡ places x g
unfolding answer_for
places-answer_for x player_id accept m g =
    elim (Option-cases (find (is_half player_id) g.pending)) [
      | inl e ↦ ground arith
      | inr (p, e) ↦ ground (
        arith,
        holds-remove_first x (is_half player_id) g.pending p e,
        seated-record_answer x player_id accept p,
        holds-update_first x (is_half player_id) (record_answer player_id accept) g.pending
            (record_answer-a player_id accept) (record_answer-b player_id accept),
      )
    ]
