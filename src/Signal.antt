-- ===== src/Signal.antt =====
-- src/signal.rs: the mailboxes of the ICE signals. The envelopes are a type of their own, as nothing here
-- looks into them; a player's id is a text.
pub mod Mailbox
pub mod Examples
use recomp_net_server.Common.{
  ℕ, zero, suc, Option, none, some, List, [], ◌∷◌, ◌++◌, Bool, true, false, leb, String, string_eq,
  if◌then◌else◌, length,
}
use recomp_net_server.Common.Map

abbrev pub max_queued_per_player : ℕ
max_queued_per_player = 64

module _ {ℓ} {A : Type ℓ} where
  -- `unwrap_or_default`
  unfoldable pub or_default : Option (List A) → List A
  or_default none = []
  or_default (some q) = q

  -- `pop_front`
  unfoldable pub pop_front : List A → List A
  pop_front [] = []
  pop_front (x ∷ q) = q

module _ {SignalEnvelope : Type 0} where
  unfoldable pub push_to :
      List (String × List SignalEnvelope)
      → String
      → SignalEnvelope
      → List (String × List SignalEnvelope)
  push_to queues to msg =
      let q = or_default (Map.get to queues) in
      let q' = if leb max_queued_per_player (length q) then pop_front q else q in
      Map.insert to (q' ++ (msg ∷ [])) queues

  unfoldable pub drain :
      List (String × List SignalEnvelope)
      → String
      → List (String × List SignalEnvelope) × List SignalEnvelope
  drain queues player_id = (Map.remove player_id queues, or_default (Map.get player_id queues))

  unfoldable pub clear_player :
      List (String × List SignalEnvelope) → String → List (String × List SignalEnvelope)
  clear_player queues player_id = Map.remove player_id queues
