-- ===== src/Secrets/Keys.antt =====
-- Which keys answer for a player (src/secrets.rs).
use recomp_net_server.Common.{
  ℕ, ◌≡◌, ◌⊎◌, inl, inr, refl, sym, subst, ==_refl, ◌∙◌, Option, none, some, List, [], ◌∷◌, Bool,
  true, false, ◌||◌, ◌==◌, nat_eq, if◌then◌else◌, any, find, find-eq-some, is_some, arith,
  Bool-cases, Option-cases,
}
use recomp_net_server.Common.Text.{Text, text_eq, text_beq_iff}
use recomp_net_server.Secrets.{
  Secret, Secrets, ct_eq, is_live, live_hashes, update, revoked, match_proof, verify_proof,
  revoke_by_proof, revoke_all,
}
use recomp_net_server.Secrets.Compare.{ct_eq_iff}

ct_eq-eq : (a b : Text) → ct_eq a b ≡ (a == b)
ct_eq-eq a b = ground (arith, ct_eq_iff a b, text_beq_iff a b)

pub live_hashes-empty : (player : Text) → live_hashes player [] ≡ []
unfolding live_hashes
live_hashes-empty player = refl

-- The live keys of a player, with one row in front.
pub live_hashes-live :
    (player : Text) (s : Secret) (rows : Secrets)
    → is_live player s ≡ true
    → live_hashes player (s ∷ rows) ≡ s.secret_hash ∷ live_hashes player rows
unfolding live_hashes
live_hashes-live player s rows h = rw h refl

pub live_hashes-dead :
    (player : Text) (s : Secret) (rows : Secrets)
    → is_live player s ≡ false
    → live_hashes player (s ∷ rows) ≡ live_hashes player rows
unfolding live_hashes
live_hashes-dead player s rows h = rw h refl

revoked-dead : (player : Text) (now : ℕ) (s : Secret) → is_live player (revoked now s) ≡ false
revoked-dead player now s = ground arith

live_hashes-revoke_all :
    (player : Text) (now : ℕ) (rows : Secrets)
    → live_hashes player (update (is_live player) (revoked now) rows).0 ≡ []
unfolding update
live_hashes-revoke_all player now [] = live_hashes-empty player
live_hashes-revoke_all player now (s ∷ rows) =
    let rest = (update (is_live player) (revoked now) rows).0 in
    let all = live_hashes-revoke_all player now rows in
    elim (Bool-cases (is_live player s)) [
      | inl y ↦
          rw y (live_hashes-dead player (revoked now s) rest (revoked-dead player now s) ∙ all)
      | inr n ↦ rw n (live_hashes-dead player s rest n ∙ all)
    ]

abbrev picks : Text → Secret → Bool
picks v s = s.secret_hash == v

live_hashes-revoked :
    (player v : Text) (now : ℕ) (rows : Secrets)
    → any (λ h. h == v) (live_hashes player (update (picks v) (revoked now) rows).0) ≡ false
unfolding update
live_hashes-revoked player v now [] = rw (live_hashes-empty player) refl
live_hashes-revoked player v now (s ∷ rows) =
    let rest = (update (picks v) (revoked now) rows).0 in
    let all = live_hashes-revoked player v now rows in
    elim (Bool-cases (picks v s)) [
      | inl y ↦ rw (y, live_hashes-dead player (revoked now s) rest (revoked-dead player now s)) all
      | inr n ↦ (elim (Bool-cases (is_live player s)) [
        | inl live ↦ rw (n, live_hashes-live player s rest live, n) all
        | inr dead ↦ rw (n, live_hashes-dead player s rest dead) all
      ])
    ]

module _ (expected_proof : (verifier nonce : Text) → Text) (nonce proof : Text) where
  abbrev pub proves : Text → Bool
  proves v = expected_proof v nonce == proof

  match_proof-any :
      (rows : List Text) (m : Option Text)
      → is_some (match_proof expected_proof nonce proof rows m) ≡ (is_some m || any proves rows)
  unfolding match_proof
  match_proof-any [] m = ground arith
  match_proof-any (v ∷ rows) m = elim (Bool-cases (proves v)) [
    | inl y ↦
        rw (ct_eq-eq (expected_proof v nonce) proof, y, match_proof-any rows (some v))
          (ground arith)
    | inr n ↦ rw (ct_eq-eq (expected_proof v nonce) proof, n, match_proof-any rows m) refl
  ]

  module _ {Player : Type 0} (load_player : Text → Option Player) (rows : Secrets) (now : ℕ)
      (player : Text) where
    -- A proof is accepted exactly when some key of the player that is not revoked answers the nonce with it,
    -- and then the answer is the player.
    pub verify_proof_iff :
        (verify_proof load_player expected_proof rows now player nonce proof).1
        ≡ (if any proves (live_hashes player rows) then load_player player else none)
    unfolding verify_proof
    verify_proof_iff =
        let found = match_proof-any (live_hashes player rows) none in
        elim (Option-cases
          (match_proof expected_proof nonce proof (live_hashes player rows) none)) [
            | inl miss ↦
                let no : any proves (live_hashes player rows) ≡ false = ground (arith, miss) in
                rw (verify_proof, miss, no) refl
            | inr (v, hit) ↦
                let yes : any proves (live_hashes player rows) ≡ true = ground (arith, hit) in
                rw (verify_proof, hit, yes) refl
          ]

any-has :
    (p : Text → Bool) (xs : List Text)
    → any p xs ≡ true
    → (x : Text) × (any (λ h. h == x) xs ≡ true) × (p x ≡ true)
any-has p [] h = absurd (ground arith)
any-has p (x ∷ xs) h = elim (Bool-cases (p x)) [
  | inl y ↦ (x, ground (arith, ==_refl x), y)
  | inr n ↦ (let (z, there, own) = any-has p xs (ground arith) in (z, ground (arith, there), own))
]

find-has :
    (p : Text → Bool) (xs : List Text) (x : Text) → find p xs ≡ some x → any (λ h. h == x) xs ≡ true
find-has p [] x e = absurd (ground arith)
find-has p (y ∷ xs) x e = elim (Bool-cases (p y)) [
  | inl own ↦
      let both : some y ≡ some x = rw own at e in
      let same : y ≡ x = ground (arith, both) in
      let (_, eq) = text_beq_iff y x in ground (arith, eq same)
  | inr other ↦ (let e' : find p xs ≡ some x = rw other at e in ground (arith, find-has p xs x e'))
]

live_hashes-cons :
    (player : Text) (q : Text → Bool) (s : Secret) (rows : Secrets)
    → any q (live_hashes player rows) ≡ true
    → any q (live_hashes player (s ∷ rows)) ≡ true
live_hashes-cons player q s rows h = elim (Bool-cases (is_live player s)) [
  | inl live ↦ rw (live_hashes-live player s rows live, h) (ground arith)
  | inr dead ↦ rw (live_hashes-dead player s rows dead) h
]

-- A key that is live after a revocation was live before.
live-before :
    (player v : Text) (now : ℕ) (q : Text → Bool) (rows : Secrets)
    → any q (live_hashes player (update (picks v) (revoked now) rows).0) ≡ true
    → any q (live_hashes player rows) ≡ true
unfolding update
live-before player v now q [] h = h
live-before player v now q (s ∷ rows) h =
    let rest = (update (picks v) (revoked now) rows).0 in
    let ih = live-before player v now q rows in
    elim (Bool-cases (picks v s)) [
      | inl y ↦
          let h' : any q (live_hashes player (revoked now s ∷ rest)) ≡ true = rw y at h in
          let dead = live_hashes-dead player (revoked now s) rest (revoked-dead player now s) in
          let h'' : any q (live_hashes player rest) ≡ true = rw dead at h' in
          live_hashes-cons player q s rows (ih h'')
      | inr n ↦
          let h' : any q (live_hashes player (s ∷ rest)) ≡ true = rw n at h in
          (elim (Bool-cases (is_live player s)) [
            | inr dead ↦
                let h'' : any q (live_hashes player rest) ≡ true =
                  rw (live_hashes-dead player s rest dead) at h' in
                live_hashes-cons player q s rows (ih h'')
            | inl live ↦
                let h'' : any q (s.secret_hash ∷ live_hashes player rest) ≡ true =
                  rw (live_hashes-live player s rest live) at h' in
                rw (live_hashes-live player s rows live) (elim (Bool-cases (q s.secret_hash)) [
                  | inl own ↦ rw own refl
                  | inr other ↦ rw other (ih (rw other at h''))
                ])
          ])
    ]

-- Two live keys of the player with different hashes that answer the nonce alike.
unfoldable pub Collides :
    ((verifier nonce : Text) → Text) → Secrets → (player nonce : Text) → Type 0
Collides expected_proof rows player nonce =
    (h : Text) × (h' : Text) × (any (λ k. k == h) (live_hashes player rows) ≡ true)
    × (any (λ k. k == h') (live_hashes player rows) ≡ true)
    × ((h == h') ≡ false)
    × (expected_proof h nonce ≡ expected_proof h' nonce)

module _ (expected_proof : (verifier nonce : Text) → Text) (nonce proof : Text) where
  find-agrees :
      (hs : List Text)
      → find (λ v. ct_eq (expected_proof v nonce) proof) hs
        ≡ find (proves expected_proof nonce proof) hs
  find-agrees [] = refl
  find-agrees (v ∷ hs) = rw (ct_eq-eq (expected_proof v nonce) proof, find-agrees hs) refl

  collision :
      (rows : Secrets) (now : ℕ) (player v : Text)
      → find (proves expected_proof nonce proof) (live_hashes player rows) ≡ some v
      → any
          (proves expected_proof nonce proof)
          (live_hashes player (update (picks v) (revoked now) rows).0)
        ≡ true
      → Collides expected_proof rows player nonce
  unfolding Collides
  collision rows now player v hit other =
      let left = live_hashes player (update (picks v) (revoked now) rows).0 in
      let (x, there, own) = any-has (proves expected_proof nonce proof) left other in
      let gone = live_hashes-revoked player v now rows in
      let first =
        find-eq-some (proves expected_proof nonce proof) (live_hashes player rows) v hit in
      let (same_x, _) = text_beq_iff (expected_proof x nonce) proof in
      let (same_v, _) = text_beq_iff (expected_proof v nonce) proof in
      (
        x,
        v,
        live-before player v now (λ k. k == x) rows there,
        find-has (proves expected_proof nonce proof) (live_hashes player rows) v hit,
        elim (Bool-cases (x == v)) [
          | inr apart ↦ apart
          | inl yes' ↦
              let eq : x ≡ v = (text_beq_iff x v).0 yes' in
              let still : any (λ k. k == v) left ≡ true =
                subst (λ y. any (λ k. k == y) left ≡ true) {x = x} {y = v} eq there in
              absurd (ground (arith, still, gone))
        ],
        same_x own ∙ sym (same_v first),
      )

  -- A device that revoked itself with a proof is refused when it shows the same proof again, unless two live
  -- keys of the player with different hashes answered the nonce alike.
  pub revoke_by_proof-refused :
      {Player : Type 0} (load_player : Text → Option Player) (rows : Secrets) (now later : ℕ)
      (player : Text)
      → (revoke_by_proof expected_proof rows now player nonce proof).1 ≡ true
      → ((verify_proof load_player expected_proof
            (revoke_by_proof expected_proof rows now player nonce proof).0
            later
            player
            nonce
            proof).1
          ≡ none)
        ⊎ Collides expected_proof rows player nonce
  unfolding revoke_by_proof Collides
  revoke_by_proof-refused load_player rows now later player h =
      let agrees = find-agrees (live_hashes player rows) in
      elim (Option-cases (find (proves expected_proof nonce proof) (live_hashes player rows))) [
        | inl miss ↦ (let never = rw (revoke_by_proof, agrees, miss) at h in absurd (ground arith))
        | inr (v, hit) ↦
            let left = (update (picks v) (revoked now) rows).0 in
            elim (Bool-cases (any (proves expected_proof nonce proof) (live_hashes player left))) [
              | inr none' ↦ inl (
                  rw (revoke_by_proof, agrees, hit)
                    (verify_proof_iff expected_proof nonce proof load_player left later player
                      ∙ rw none' refl))
              | inl other ↦ inr (collision rows now player v hit other)
            ]
      ]

-- After every key of a player is revoked no proof is accepted for the player, whatever the nonce.
pub revoke_all-refuses :
    {Player : Type 0} (load_player : Text → Option Player)
    (expected_proof : (verifier nonce : Text) → Text) (rows : Secrets) (now later : ℕ)
    (player nonce proof : Text)
    → (verify_proof load_player expected_proof
        (revoke_all rows now player).0
        later
        player
        nonce
        proof).1
      ≡ none
unfolding revoke_all
revoke_all-refuses load_player expected_proof rows now later player nonce proof =
    verify_proof_iff expected_proof nonce proof load_player
      (update (is_live player) (revoked now) rows).0 later player
    ∙ rw (live_hashes-revoke_all player now rows) refl
