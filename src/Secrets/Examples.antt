-- ===== src/Secrets/Examples.antt =====
-- A player with two devices, and the theorems on src/secrets.rs at its keys. The hash and the proof of the
-- example are simple functions.
use recomp_net_server.Common.{ℕ, ◌≡◌, ◌⊎◌, ◌++◌, refl, Option, none, some, [], ◌∷◌, false}
use recomp_net_server.Common.Text.{Text, text_eq, chars, is_control, is_whitespace, trim}
use recomp_net_server.Secrets.{
  Secrets, new_key, differences, ct_eq, live_hashes, update, issue, match_proof, verify_proof,
  revoke_by_proof, redeem, revoke, revoke_all,
}
use recomp_net_server.Secrets.Keys.{Collides, revoke_by_proof-refused}
use recomp_net_server.Secrets.Issued.{issue-verify_proof}

program : Unit {0}
unfolding differences ct_eq live_hashes update issue match_proof verify_proof revoke_by_proof redeem
    revoke revoke_all is_control is_whitespace trim
program = tt

abbrev sha : Text → Text
sha key = b'h' ∷ key

abbrev proof_of : Text → Text → Text
proof_of verifier nonce = b'p' ∷ verifier

abbrev load : Text → Option ℕ
load player = some 7

abbrev rows : Secrets
rows =
    new_key (chars "ann") (sha (chars "rnp_1")) 1 (chars "laptop")
    ∷ new_key (chars "ann") (sha (chars "rnp_2")) 2 (chars "phone")
    ∷ []

equal : ct_eq (chars "abc") (chars "abd") ≡ false
unfolding program
equal = refl

revoked_one :
    (verify_proof load proof_of
      (revoke sha rows 5 (chars "rnp_1")).0
      6
      (chars "ann")
      (chars "n")
      (proof_of (sha (chars "rnp_2")) (chars "n"))).1
    ≡ some 7
unfolding program
revoked_one = refl

revoke_by_proof-refused_example :
    ((verify_proof load proof_of
        (revoke_by_proof proof_of rows 5
          (chars "ann")
          (chars "n")
          (proof_of (sha (chars "rnp_2")) (chars "n"))).0
        6
        (chars "ann")
        (chars "n")
        (proof_of (sha (chars "rnp_2")) (chars "n"))).1
      ≡ none)
    ⊎ Collides proof_of rows (chars "ann") (chars "n")
unfolding program
revoke_by_proof-refused_example =
    revoke_by_proof-refused proof_of (chars "n") (proof_of (sha (chars "rnp_2")) (chars "n")) load
      rows 5 6 (chars "ann") refl

abbrev third : Secrets
third = rows ++ (new_key (chars "ann") (sha (chars "rnp_3")) 3 (chars "tv") ∷ [])

issued : issue sha rows (chars "ann") (chars "3") 3 (chars "tv") ≡ some (third, chars "rnp_3")
unfolding program
issued = refl

issue-verify_proof_example :
    (verify_proof load proof_of third 5
      (chars "ann")
      (chars "n")
      (proof_of (sha (chars "rnp_3")) (chars "n"))).1
    ≡ load (chars "ann")
issue-verify_proof_example =
    issue-verify_proof load sha rows (chars "ann") (chars "3") 3 (chars "tv") third (chars "rnp_3")
      issued proof_of (chars "n") 5
