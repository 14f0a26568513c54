-- ===== src/Signal/Examples.antt =====
-- A run of the mailboxes of src/signal.rs, and the theorem at it.
use recomp_net_server.Common.{◌≡◌, refl, ℕ, List, [], ◌∷◌}
use recomp_net_server.Common.Map
use recomp_net_server.Signal.{or_default, pop_front, push_to, drain, clear_player}
use recomp_net_server.Signal.Mailbox.{
  Call, pushed, drained, cleared, run, sent_to, latest, drain-run,
}

program : Unit {0}
unfolding or_default pop_front push_to drain clear_player run sent_to latest Map.get Map.insert
    Map.remove
program = tt

abbrev calls : List (Call ℕ)
calls = pushed "a" 1 ∷ pushed "b" 2 ∷ drained "a" ∷ pushed "a" 3 ∷ cleared "b" ∷ pushed "a" 4 ∷ []

in_order : (drain (run [] calls) "a").1 ≡ 3 ∷ 4 ∷ []
unfolding program
in_order = refl

drain-run_example : (drain (run [] calls) "a").1 ≡ latest (sent_to "a" [] calls)
drain-run_example = drain-run calls "a"
