-- ===== src/Automatch/Queue/Offers.antt =====
-- What a whole call of `pair` does: the offers that it makes, and the tickets that it leaves.
use mathlib.Core.List.{Perm, append-nil, append_assoc}
use mathlib.Core.List.Perm
use recomp_net_server.Common.{
  ℕ, zero, suc, ◌+◌, ◌≤◌, ◌<◌, ◌≡◌, ◌≢◌, inl, inr, refl, sym, ap, subst, ◌∙◌, max, min, Bool, true,
  false, none, some, List, [], ◌∷◌, ◌++◌, String, leb, length, arith, Bool-cases, Option-cases,
  get_elem?, erase_idx, All, ltb,
}
use recomp_net_server.Automatch.Ticket.{MatchKey, key_eq, Ticket, Pending}
use recomp_net_server.Automatch.Queue.{
  QueueInner, eligible, find_pair_pass, find_pair, offer_of, take_pair, pair_loop, pair, forget,
}
use recomp_net_server.Automatch.Queue.Pairing.{
  Hit, scan_sound, scan_complete, Compatible, eligible-Compatible, Compatible-eligible,
  Compatible-symm,
}

module _ {ℓ} {A : Type ℓ} where
  erase_idx-perm :
      (xs : List A) (i : ℕ) (x : A) → get_elem? xs i ≡ some x → Perm xs (x ∷ erase_idx xs i)
  erase_idx-perm [] i x h = absurd (ground arith)
  erase_idx-perm (y ∷ xs) zero x h =
      subst (λ z. Perm (y ∷ xs) (z ∷ xs)) (ground arith) (Perm.refl (y ∷ xs))
  erase_idx-perm (y ∷ xs) (suc i) x h =
      Perm.trans (Perm.cons y (erase_idx-perm xs i x h)) (Perm.swap x y (erase_idx xs i))

  get_elem?-erase_idx :
      (xs : List A) (hi lo : ℕ) → lo < hi → get_elem? (erase_idx xs hi) lo ≡ get_elem? xs lo
  get_elem?-erase_idx [] hi lo h = refl
  get_elem?-erase_idx (x ∷ xs) zero lo h = absurd (omega arith)
  get_elem?-erase_idx (x ∷ xs) (suc hi) zero h = refl
  get_elem?-erase_idx (x ∷ xs) (suc hi) (suc lo) h = get_elem?-erase_idx xs hi lo (omega arith)

  length-erase_idx :
      (xs : List A) (i : ℕ) (x : A)
      → get_elem? xs i ≡ some x
      → length xs ≡ suc (length (erase_idx xs i))
  length-erase_idx [] i x h = absurd (ground arith)
  length-erase_idx (y ∷ xs) zero x h = refl
  length-erase_idx (y ∷ xs) (suc i) x h = ap suc (length-erase_idx xs i x h)

-- The tickets that sit in a list of offers.
abbrev pub seats : List Pending → List Ticket
seats [] = []
seats (p ∷ ps) = p.a ∷ p.b ∷ seats ps

-- A sound offer: the two may play under the offer's key, and the older ticket is side `a`.
pub record IsSoundOffer (now : ℕ) (p : Pending) : Type 0 where
  pub compatible : Compatible now p.key p.a p.b
  pub older_first : p.a.queued_at ≤ p.b.queued_at
  pub unanswered_a : p.a_accept ≡ none
  pub unanswered_b : p.b_accept ≡ none
  pub fresh : p.offered_at ≡ now

-- One round of the loop.
record Round (now : ℕ) (g g' : QueueInner) (p : Pending) : Type 0 where
  split : Perm g.tickets (p.a ∷ p.b ∷ g'.tickets)
  queued : g'.pending ≡ g.pending ++ p ∷ []
  recent : g'.recent ≡ g.recent
  sound : IsSoundOffer now p
  fewer : length g.tickets ≡ 2 + length g'.tickets

find_pair-Hit :
    (g : QueueInner) (now cooldown i j : ℕ) (key : MatchKey)
    → find_pair g now cooldown ≡ some (i, j, key)
    → (allow : Bool) × Hit (eligible g.recent now cooldown allow) g.tickets i j key
unfolding find_pair find_pair_pass
find_pair-Hit g now cooldown i j key h = elim (Option-cases (find_pair_pass g now cooldown false)) [
  | inl e ↦ (true, scan_sound _ g.tickets i j key (ground arith))
  | inr (hit, e) ↦ (false, scan_sound _ g.tickets i j key (ground arith))
]

-- The offer of two tickets in either order.
offer_of_sound :
    (id : String) (now : ℕ) (key : MatchKey) (lo hi : Ticket)
    → Compatible now key lo hi
    → IsSoundOffer now (offer_of id now key lo hi)
unfolding offer_of
offer_of_sound id now key lo hi c = elim (Bool-cases (leb lo.queued_at hi.queued_at)) [
  | inl e ↦ rw e (record {
    compatible = c;
    older_first = ground arith;
    unanswered_a = refl;
    unanswered_b = refl;
    fresh = refl;
  })
  | inr e ↦ rw e (record {
    compatible = Compatible-symm now key lo hi c;
    older_first = ground arith;
    unanswered_a = refl;
    unanswered_b = refl;
    fresh = refl;
  })
]

offer_of-perm :
    (id : String) (now : ℕ) (key : MatchKey) (lo hi : Ticket) (ts : List Ticket)
    → let p = offer_of id now key lo hi in Perm (hi ∷ lo ∷ ts) (p.a ∷ p.b ∷ ts)
unfolding offer_of
offer_of-perm id now key lo hi ts = elim (Bool-cases (leb lo.queued_at hi.queued_at)) [
  | inl e ↦ rw e (Perm.swap lo hi ts)
  | inr e ↦ rw e (Perm.refl (hi ∷ lo ∷ ts))
]

abbrev left_after : QueueInner → ℕ → ℕ → Pending → QueueInner
left_after g hi lo p = record g {
  tickets = erase_idx (erase_idx g.tickets hi) lo;
  pending = g.pending ++ p ∷ [];
}

take_pair-eq :
    (id : String) (now : ℕ) (g : QueueInner) (i j hi lo : ℕ) (key : MatchKey) (t_lo t_hi : Ticket)
    → max i j ≡ hi
    → min i j ≡ lo
    → lo < hi
    → get_elem? g.tickets hi ≡ some t_hi
    → get_elem? g.tickets lo ≡ some t_lo
    → take_pair id now g i j key
      ≡ some (left_after g hi lo (offer_of id now key t_lo t_hi), offer_of id now key t_lo t_hi)
unfolding take_pair
take_pair-eq id now g i j hi lo key t_lo t_hi eh el lt gh gl =
    ground (arith, get_elem?-erase_idx g.tickets hi lo lt)

left_after-Round :
    (id : String) (now : ℕ) (g : QueueInner) (hi lo : ℕ) (key : MatchKey) (t_lo t_hi : Ticket)
    → lo < hi
    → get_elem? g.tickets hi ≡ some t_hi
    → get_elem? g.tickets lo ≡ some t_lo
    → Compatible now key t_lo t_hi
    → let p = offer_of id now key t_lo t_hi in Round now g (left_after g hi lo p) p
left_after-Round id now g hi lo key t_lo t_hi lt gh gl c =
    let gl' = get_elem?-erase_idx g.tickets hi lo lt ∙ gl in
    record {
      split = Perm.trans (erase_idx-perm g.tickets hi t_hi gh) (
          Perm.trans (Perm.cons t_hi (erase_idx-perm (erase_idx g.tickets hi) lo t_lo gl'))
            (offer_of-perm id now key t_lo t_hi (erase_idx (erase_idx g.tickets hi) lo)));
      queued = refl;
      recent = refl;
      sound = offer_of_sound id now key t_lo t_hi c;
      fewer = omega (
        arith,
        length-erase_idx g.tickets hi t_hi gh,
        length-erase_idx (erase_idx g.tickets hi) lo t_lo gl',
      );
    }

-- A pair that the scan found is always there to be taken.
take_pair-Round :
    (id : String) (now cooldown : ℕ) (g : QueueInner) (i j : ℕ) (key : MatchKey)
    → find_pair g now cooldown ≡ some (i, j, key)
    → (g' : QueueInner) × (p : Pending) × (take_pair id now g i j key ≡ some (g', p))
      × Round now g g' p
take_pair-Round id now cooldown g i j key h =
    let (allow, hit) = find_pair-Hit g now cooldown i j key h in
    let c =
      eligible-Compatible g.recent now cooldown allow key hit.a hit.b hit.own_key hit.passed in
    elim (Bool-cases (ltb i j)) [
      | inl e ↦ (
        _,
        _,
        take_pair-eq id now g i j j i key hit.a hit.b (ground arith) (ground arith) (ground arith)
            hit.at_j hit.at_i,
        left_after-Round id now g j i key hit.a hit.b (ground arith) hit.at_j hit.at_i c,
      )
      | inr e ↦
          (let lt : j < i = (let d = hit.differ in ground arith) in
            (
              _,
              _,
              take_pair-eq id now g i j i j key hit.b hit.a (omega arith) (omega arith) lt hit.at_i
                  hit.at_j,
              left_after-Round id now g i j key hit.b hit.a lt hit.at_i hit.at_j
                  (Compatible-symm now key hit.a hit.b c),
            ))
    ]

-- What the loop does from a state to the state that it leaves with a list of offers.
record Formed (now cooldown : ℕ) (g r : QueueInner) (offers : List Pending) : Type 0 where
  pub split : Perm g.tickets (seats offers ++ r.tickets)
  pub queued : r.pending ≡ g.pending ++ offers
  pub recent : r.recent ≡ g.recent
  pub sound : All (IsSoundOffer now) offers
  pub exhausted : find_pair r now cooldown ≡ none

no_tickets :
    (g : QueueInner) (now cooldown : ℕ) → length g.tickets ≡ 0 → find_pair g now cooldown ≡ none
no_tickets g now cooldown h = elim (Option-cases (find_pair g now cooldown)) [
  | inl e ↦ e
  | inr ((i, j, key), e) ↦
      (let (allow, hit) = find_pair-Hit g now cooldown i j key e in
        absurd (omega (arith, length-erase_idx g.tickets i hit.a hit.at_i)))
]

module _ (uuid : ℕ → String) (now cooldown : ℕ) where
  pair_loop-Formed :
      (fuel n : ℕ) (g : QueueInner)
      → length g.tickets ≤ fuel
      → let r = pair_loop uuid now cooldown fuel n g in Formed now cooldown g r.0 r.1
  unfolding pair_loop
  pair_loop-Formed zero n g h = record {
    split = Perm.refl g.tickets;
    queued = sym (append-nil g.pending);
    recent = refl;
    sound = tt;
    exhausted = no_tickets g now cooldown (omega arith);
  }
  pair_loop-Formed (suc fuel) n g h = elim (Option-cases (find_pair g now cooldown)) [
    | inl e ↦
        rw (e, pair_loop)
          (record {
            split = Perm.refl g.tickets;
            queued = sym (append-nil g.pending);
            recent = refl;
            sound = tt;
            exhausted = e;
          })
    | inr ((i, j, key), e) ↦
        (let (g', p, t, round) = take_pair-Round (uuid n) now cooldown g i j key e in
          let ih = pair_loop-Formed fuel (suc n) g' (let f = round.fewer in omega arith) in
          rw (e, pair_loop, t)
            (record {
              split = Perm.trans round.split (Perm.cons p.a (Perm.cons p.b ih.split));
              queued =
                  ih.queued
                  ∙ ap (λ q. q ++ (pair_loop uuid now cooldown fuel (suc n) g').1) round.queued
                  ∙ append_assoc g.pending (p ∷ []) _;
              recent = ih.recent ∙ round.recent;
              sound = (round.sound, ih.sound);
              exhausted = ih.exhausted;
            }))
  ]

-- No two tickets of the state may be put together.
abbrev pub NonePairable : ℕ → QueueInner → Type 0
NonePairable now r =
    (i j : ℕ) (a b : Ticket) (key : MatchKey)
    → get_elem? r.tickets i ≡ some a
    → get_elem? r.tickets j ≡ some b
    → i ≢ j
    → ¬ Compatible now key a b

find_pair_pass-none :
    (g : QueueInner) (now cooldown : ℕ)
    → find_pair g now cooldown ≡ none
    → find_pair_pass g now cooldown true ≡ none
unfolding find_pair
find_pair_pass-none g now cooldown h = elim (Option-cases (find_pair_pass g now cooldown false)) [
  | inl e ↦ ground arith
  | inr (hit, e) ↦ absurd (ground arith)
]

pub exhausted-NonePairable :
    (g : QueueInner) (now cooldown : ℕ) → find_pair g now cooldown ≡ none → NonePairable now g
unfolding find_pair_pass
exhausted-NonePairable g now cooldown h i j a b key ea eb d c =
    scan_complete (eligible g.recent now cooldown true) g.tickets
      (find_pair_pass-none g now cooldown h) i j key
      (record {
        a = a;
        b = b;
        at_i = ea;
        at_j = eb;
        differ = d;
        own_key = c.a_key;
        passed = Compatible-eligible g.recent now cooldown true key a b c refl;
      })

module _ (uuid : ℕ → String) (now cooldown : ℕ) (g : QueueInner) where
  -- A call of `pair` loses no ticket and makes up none: the waiting tickets are, up to order, those of
  -- its offers and those that it leaves, and the offers are appended to the pending ones.
  pub pair_conserves :
      let r = pair uuid now cooldown g in
      Perm g.tickets (seats r.1 ++ r.0.tickets) × (r.0.pending ≡ g.pending ++ r.1)
  unfolding pair forget
  pair_conserves =
      let f =
        pair_loop-Formed uuid now cooldown (length g.tickets) 0 (forget uuid now cooldown g)
          (omega arith) in
      (f.split, f.queued)

  -- Every offer of `pair` puts together two tickets that both hold the offer's key, of two
  -- accounts neither of which has blocked the other, of which one can relay or both run over ICE,
  -- each measured or past the grace, and near enough for the longer wait; the older ticket
  -- is side `a`.
  pub pair_sound : All (IsSoundOffer now) (pair uuid now cooldown g).1
  unfolding pair forget
  pair_sound =
      (pair_loop-Formed uuid now cooldown (length g.tickets) 0 (forget uuid now cooldown g)
        (omega arith)).sound

  -- When `pair` returns, no two of the tickets that it leaves could be put together under any key,
  -- a rematch included: the number of tickets is fuel enough.
  pub pair_exhausts :
      let r = (pair uuid now cooldown g).0 in
      (i j : ℕ) (a b : Ticket) (key : MatchKey)
      → get_elem? r.tickets i ≡ some a
      → get_elem? r.tickets j ≡ some b
      → i ≢ j
      → ¬ Compatible now key a b
  unfolding pair forget
  pair_exhausts =
      exhausted-NonePairable _ now cooldown
        (pair_loop-Formed uuid now cooldown (length g.tickets) 0 (forget uuid now cooldown g)
          (omega arith)).exhausted
