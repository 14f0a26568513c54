-- ===== src/Automatch/Queue/Answers.antt =====
-- The accept gate of src/automatch.rs: when `answer_for` hands an offer back, and what a late answer does.
use recomp_net_server.Common.{
  ◌≡◌, ◌≢◌, inl, inr, sym, subst, Bool, true, false, not, ◌&&◌, ◌||◌, Option, none, some, List, [],
  ◌∷◌, String, arith, Option-cases, Bool-cases, find, is_some, All, All-find, remove_first,
  update_first, if◌then◌else◌, string_eq, ◌==◌, find-eq-some,
}
use recomp_net_server.Automatch.Ticket.{Pending, side, answered, both_yes}
use recomp_net_server.Automatch.Queue.{QueueInner, is_half, record_answer, names_other, answer_for}

-- Every pending offer still waits for a side, and no side has declined.
abbrev pub IsWaiting : Pending → Type 0
IsWaiting p = answered p ≡ false

abbrev pub AllWaiting : QueueInner → Type 0
AllWaiting g = All IsWaiting g.pending

-- The answer of the player's opponent.
abbrev pub other_answer : String → Pending → Option Bool
other_answer player_id p = if p.a.player_id == player_id then p.b_accept else p.a_accept

record_answer_facts :
    (player_id : String) (accept : Bool) (p : Pending)
    → IsWaiting p
    → is_half player_id p ≡ true
    → (answered (record_answer player_id accept p)
        ≡ (not accept || is_some (other_answer player_id p)))
      × (both_yes (record_answer player_id accept p)
          ≡ (accept && is_some (other_answer player_id p)))
unfolding record_answer answered both_yes side
record_answer_facts player_id accept p w h = elim (Bool-cases (p.a.player_id == player_id)) [
  | inl e ↦ ground arith
  | inr e ↦ ground arith
]

pub All-remove_first {ℓ κ} :
    {A : Type ℓ} (P : A → Type κ) (p : A → Bool) (xs : List A)
    → All P xs
    → All P (remove_first p xs)
All-remove_first P p [] h = tt
All-remove_first P p (x ∷ xs) h = ground (arith, All-remove_first P p xs h.1)

All-update_hit {ℓ κ} :
    {A : Type ℓ} (P : A → Type κ) (p : A → Bool) (f : A → A) (xs : List A) (x : A)
    → All P xs
    → find p xs ≡ some x
    → P (f x)
    → All P (update_first p f xs)
All-update_hit P p f [] x h e k = tt
All-update_hit P p f (y ∷ xs) x h e k = elim (Bool-cases (p y)) [
  | inl q ↦ (let same : y ≡ x = ground arith in rw q (subst (λ z. P (f z)) (sym same) k, h.1))
  | inr q ↦ rw q (h.0, All-update_hit P p f xs x h.1 (ground arith) k)
]

-- With every pending offer still waiting, an answer to the player's own offer settles it exactly if
-- it is a refusal or the opponent has accepted already; the offer is handed back with the
-- answer in it, accepted by both exactly if this was the second acceptance; the tickets are
-- untouched, and the offers that stay are still waiting.
pub answer_for_settles :
    (player_id : String) (accept : Bool) (match_id : Option String) (g : QueueInner) (p : Pending)
    → AllWaiting g
    → find (is_half player_id) g.pending ≡ some p
    → names_other match_id p ≡ false
    → let r = answer_for player_id accept match_id g in
      let q = record_answer player_id accept p in
      (r.1 ≡ (if not accept || is_some (other_answer player_id p) then some q else none))
      × (both_yes q ≡ (accept && is_some (other_answer player_id p)))
      × (r.0.tickets ≡ g.tickets)
      × AllWaiting r.0
unfolding answer_for
answer_for_settles player_id accept match_id g p w f m =
    let half = find-eq-some (is_half player_id) g.pending p f in
    let facts =
      record_answer_facts player_id accept p
        (All-find IsWaiting (is_half player_id) g.pending p w f) half in
    let kept = All-remove_first IsWaiting (is_half player_id) g.pending w in
    elim (Bool-cases (answered (record_answer player_id accept p))) [
      | inl e ↦ (ground arith, facts.1, ground arith, rw (f, answer_for, m, e) kept)
      | inr e ↦ (
        ground arith,
        facts.1,
        ground arith,
        rw (f, answer_for, m, e)
            (All-update_hit IsWaiting (is_half player_id) (record_answer player_id accept) g.pending
              p w f e),
      )
    ]

-- A late reply: an answer that names a match which is no pending offer changes nothing and
-- settles nothing.
pub answer_for_late :
    (player_id m : String) (accept : Bool) (g : QueueInner)
    → All (λ (p : Pending). m ≢ p.match_id) g.pending
    → answer_for player_id accept (some m) g ≡ (g, none)
unfolding answer_for
answer_for_late player_id m accept g h = elim (Option-cases (find (is_half player_id) g.pending)) [
  | inl e ↦ ground arith
  | inr (p, e) ↦
      (let d = All-find (λ (p : Pending). m ≢ p.match_id) (is_half player_id) g.pending p h e in
        ground (arith, string_eq.equal_iff m p.match_id))
]
