-- ===== src/Secrets/Issued.antt =====
-- A key that was issued works (src/secrets.rs).
use recomp_net_server.Common.{
  ℕ, ◌≡◌, inl, inr, refl, sym, ap, subst, ◌∙◌, Option, some, List, [], ◌∷◌, ◌++◌, Bool, true, false,
  ◌&&◌, ◌==◌, nat_eq, any, find, is_none, arith, Bool-cases, ==_refl,
}
use recomp_net_server.Common.Text.{Text, text_eq, chars}
use recomp_net_server.Secrets.{
  Secret, Secrets, new_key, is_live, live_hashes, issue, verify_proof, redeem,
}
use recomp_net_server.Secrets.Keys.{
  proves, verify_proof_iff, live_hashes-live, live_hashes-dead, live_hashes-empty,
}

any-last :
    (q : Text → Bool) (player : Text) (s : Secret) (rows : Secrets)
    → is_live player s ≡ true
    → q s.secret_hash ≡ true
    → any q (live_hashes player (rows ++ (s ∷ []))) ≡ true
any-last q player s [] live h =
    rw (live_hashes-live player s [] live, live_hashes-empty player, h) refl
any-last q player s (r ∷ rows) live h =
    let rest = any-last q player s rows live h in
    elim (Bool-cases (is_live player r)) [
      | inl y ↦ rw (live_hashes-live player r (rows ++ (s ∷ [])) y, rest) (ground arith)
      | inr n ↦ rw (live_hashes-dead player r (rows ++ (s ∷ [])) n) rest
    ]

find-last :
    {A : Type 0} (p : A → Bool) (xs : List A) (x : A)
    → any p xs ≡ false
    → p x ≡ true
    → find p (xs ++ (x ∷ [])) ≡ some x
find-last p [] x h k = rw k refl
find-last p (y ∷ xs) x h k =
    let no : p y ≡ false = ground arith in rw no (find-last p xs x (ground arith) k)

any-and :
    {A : Type 0} (p q : A → Bool) (xs : List A)
    → any p xs ≡ false
    → any (λ x. p x && q x) xs ≡ false
any-and p q [] h = refl
any-and p q (x ∷ xs) h =
    let no : p x ≡ false = ground arith in rw no (any-and p q xs (ground arith))

-- What an issued key puts into the table.
issue_inv :
    (sha : Text → Text) (rows : Secrets) (player hex : Text) (id : ℕ) (label : Text)
    (rows' : Secrets) (secret : Text)
    → issue sha rows player hex id label ≡ some (rows', secret)
    → (any (λ s. s.secret_hash == sha secret) rows ≡ false)
      × (rows' ≡ rows ++ (new_key player (sha secret) id label ∷ []))
unfolding issue
issue_inv sha rows player hex id label rows' secret h =
    let made = chars "rnp_" ++ hex in
    elim (Bool-cases (any (λ s. s.secret_hash == sha made) rows)) [
      | inl taken ↦ absurd (ground (arith, taken))
      | inr free ↦
          let both : some (rows ++ (new_key player (sha made) id label ∷ []), made)
              ≡ some (rows', secret) =
            rw free at h in
          let own : made ≡ secret = ground (arith, both) in
          let all : rows ++ (new_key player (sha made) id label ∷ []) ≡ rows' =
            ground (arith, both) in
          (
            subst (λ k. any (λ s. s.secret_hash == sha k) rows ≡ false) {x = made} {y = secret} own
                free,
            sym all ∙ ap (λ k. rows ++ (new_key player (sha k) id label ∷ [])) own,
          )
    ]

module _ {Player : Type 0} (load_player : Text → Option Player) (sha : Text → Text) (rows : Secrets)
    (player hex : Text) (id : ℕ) (label : Text) (rows' : Secrets) (secret : Text)
    (issued : issue sha rows player hex id label ≡ some (rows', secret)) where
  -- A device that was issued a key can prove that it has it, to any nonce, without sending it.
  pub issue-verify_proof :
      (expected_proof : (verifier nonce : Text) → Text) (nonce : Text) (now : ℕ)
      → (verify_proof load_player expected_proof rows' now player nonce
          (expected_proof (sha secret) nonce)).1
        ≡ load_player player
  issue-verify_proof expected_proof nonce now =
      let proof = expected_proof (sha secret) nonce in
      let (_, all) = issue_inv sha rows player hex id label rows' secret issued in
      let own : proves expected_proof nonce proof (sha secret) ≡ true = ==_refl proof in
      let last =
        any-last (proves expected_proof nonce proof) player (new_key player (sha secret) id label)
          rows (ground (arith, ==_refl player)) own in
      let some_key : any (proves expected_proof nonce proof) (live_hashes player rows') ≡ true =
        ap (λ k. any (proves expected_proof nonce proof) (live_hashes player k)) all ∙ last in
      verify_proof_iff expected_proof nonce proof load_player rows' now player ∙ rw some_key refl

  -- An issued key is traded for its player.
  pub issue-redeem : (now : ℕ) → (redeem load_player sha rows' now secret).1 ≡ load_player player
  unfolding redeem
  issue-redeem now =
      let (free, all) = issue_inv sha rows player hex id label rows' secret issued in
      let is_own : Secret → Bool = λ s. s.secret_hash == sha secret && is_none s.revoked_at in
      let own = new_key player (sha secret) id label in
      let last =
        find-last is_own rows own
          (any-and (λ s. s.secret_hash == sha secret) (λ s. is_none s.revoked_at) rows free)
          (ground (arith, ==_refl (sha secret))) in
      let found : find is_own rows' ≡ some own = ap (λ k. find is_own k) all ∙ last in
      rw (redeem, found) refl
