-- ===== src/Secrets.antt =====
-- src/secrets.rs: the keys of a player's devices. SHA-256 and HMAC are arguments; the table
-- `player_secrets` is a list of rows in the order of insertion, on which each statement is written out.
-- The random bytes, the row ids and the clock are arguments, and a database that fails is left out
-- but for the unique index on `secret_hash`.
pub mod Compare
pub mod Keys
pub mod Issued
pub mod Examples
use Prim.Native.Nat.{bit_or, bit_xor}
use recomp_net_server.Common.{
  ℕ, zero, suc, ◌+◌, Option, none, some, List, [], ◌∷◌, ◌++◌, map, Bool, true, false, not, ◌&&◌,
  ltb, ◌==◌, PartialEq, nat_eq, if◌then◌else◌, length, any, retain, find, is_none,
}
use recomp_net_server.Common.Options.{◌>>=◌}
use recomp_net_server.Common.Text.{Text, text_eq, is_control, trim, take, chars}

-- `zip`, then the fold of `acc | (x ^ y)`.
unfoldable pub differences : (acc : ℕ) → Text → Text → ℕ
differences acc [] b = acc
differences acc (x ∷ a) [] = acc
differences acc (x ∷ a) (y ∷ b) = differences (bit_or acc (bit_xor x y)) a b

-- Constant-time comparison of two byte strings.
unfoldable pub ct_eq : Text → Text → Bool
ct_eq a b = if not (length a == length b) then false else differences 0 a b == 0

-- A row of `player_secrets`; a revoked key has the time of its revocation.
pub record Secret : Type 0 where
  pub id : ℕ
  pub player_id : Text
  pub secret_hash : Text
  pub label : Text
  pub last_used_at : Option ℕ
  pub revoked_at : Option ℕ

abbrev pub Secrets : Type 0
Secrets = List Secret

-- `WHERE player_id = ? AND revoked_at IS NULL`
abbrev pub is_live : Text → Secret → Bool
is_live player s = s.player_id == player && is_none s.revoked_at

-- `SELECT secret_hash FROM player_secrets WHERE player_id = ? AND revoked_at IS NULL`
unfoldable pub live_hashes : Text → Secrets → List Text
live_hashes player rows = map (λ s. s.secret_hash) (retain (is_live player) rows)

-- An `UPDATE`: the rows that the test picks are written, and their number is given.
unfoldable pub update : (Secret → Bool) → (Secret → Secret) → Secrets → Secrets × ℕ
update p f [] = ([], 0)
update p f (s ∷ rows) =
    let (rest, n) = update p f rows in if p s then (f s ∷ rest, suc n) else (s ∷ rest, n)

abbrev touched : ℕ → Secret → Secret
touched now s = record s { last_used_at = some now }

abbrev pub revoked : ℕ → Secret → Secret
revoked now s = record s { revoked_at = some now }

-- The row of a new key.
abbrev pub new_key : (player hash : Text) → (id : ℕ) → (label : Text) → Secret
new_key player hash id label = record {
  id = id;
  player_id = player;
  secret_hash = hash;
  label = trim (take 64 (retain (λ c. not (is_control c)) label));
  last_used_at = none;
  revoked_at = none;
}

module _ (sha : Text → Text) where
  -- A key from 32 random bytes, given as their hexadecimal text; `none` is the error of the unique index
  -- on `secret_hash`.
  unfoldable pub issue :
      Secrets → (player : Text) → (hex : Text) → (id : ℕ) → (label : Text) → Option (Secrets × Text)
  issue rows player hex id label =
      let secret = chars "rnp_" ++ hex in
      if any (λ s. s.secret_hash == sha secret) rows
      then none
      else some (rows ++ (new_key player (sha secret) id label ∷ []), secret)

  unfoldable pub revoke : Secrets → (now : ℕ) → (secret : Text) → Secrets × Bool
  revoke rows now secret =
      let (rows', n) =
        update (λ s. s.secret_hash == sha secret && is_none s.revoked_at) (revoked now) rows in
      (rows', ltb 0 n)

module _ (expected_proof : (verifier nonce : Text) → Text) where
  -- The loop of `verify_proof`, which keeps the last row that matches.
  unfoldable pub match_proof : (nonce proof : Text) → List Text → Option Text → Option Text
  match_proof nonce proof [] matched = matched
  match_proof nonce proof (v ∷ rows) matched =
      match_proof nonce proof rows
        (if ct_eq (expected_proof v nonce) proof then some v else matched)

  unfoldable pub revoke_by_proof :
      Secrets → (now : ℕ) → (player nonce proof : Text) → Secrets × Bool
  revoke_by_proof rows now player nonce proof =
      elim (find (λ v. ct_eq (expected_proof v nonce) proof) (live_hashes player rows)) [
        | none ↦ (rows, false)
        | some v ↦ ((update (λ s. s.secret_hash == v) (revoked now) rows).0, true)
      ]

module _ {Player : Type 0} (load_player : Text → Option Player) where
  -- `none` is the error `invalid_secret`.
  unfoldable pub verify_proof :
      ((verifier nonce : Text) → Text)
      → Secrets
      → (now : ℕ) → (player nonce proof : Text) → Secrets × Option Player
  verify_proof expected_proof rows now player nonce proof =
      elim (match_proof expected_proof nonce proof (live_hashes player rows) none) [
        | none ↦ (rows, none)
        | some v ↦ ((update (λ s. s.secret_hash == v) (touched now) rows).0, load_player player)
      ]

  unfoldable pub redeem :
      (Text → Text) → Secrets → (now : ℕ) → (secret : Text) → Secrets × Option Player
  redeem sha rows now secret =
      let h = sha secret in
      elim (find (λ s. s.secret_hash == h && is_none s.revoked_at) rows) [
        | none ↦ (rows, none)
        | some s ↦
            ((update (λ r. r.secret_hash == h) (touched now) rows).0, load_player s.player_id)
      ]

-- The number of keys revoked is given.
unfoldable pub revoke_all : Secrets → (now : ℕ) → (player : Text) → Secrets × ℕ
revoke_all rows now player = update (is_live player) (revoked now) rows
