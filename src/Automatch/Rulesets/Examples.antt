-- ===== src/Automatch/Rulesets/Examples.antt =====
-- A ruleset file, an allowlist, and the theorems on the rulesets and exemptions of src/automatch.rs at them.
use recomp_net_server.Common.{ℕ, ◌≡◌, ◌⊎◌, refl, none, some, List, [], ◌∷◌, true}
use recomp_net_server.Common.Map
use recomp_net_server.Common.Text.{chars, is_whitespace, trim, is_empty, to_ascii_lowercase}
use recomp_net_server.Automatch.Rulesets.{
  RulesetEntry, Ruleset, validate, for_game, resolve, ruleset_of, load_entries, load, IsOffer,
}
use recomp_net_server.Automatch.Rulesets.Offers.{resolve-IsOffer}
use recomp_net_server.Automatch.Exemptions.{
  split, split_digest, approves, approved, first_unapproved, allowlist, unapproved_exemption,
}
use recomp_net_server.Automatch.Examples.{Value, values, get_in}

program : Unit {0}
unfolding validate for_game resolve ruleset_of load_entries load split split_digest approves
    approved first_unapproved allowlist unapproved_exemption get_in is_whitespace trim
    to_ascii_lowercase Map.get Map.insert
program = tt

abbrev strict_caps : Value
strict_caps = Value.field "mod_cosmetic_allow" (Value.text "hud@1.0#AB12; skin@2") Value.blank

abbrev entry : RulesetEntry values ℕ
entry = record {
  id = chars "ranked";
  label = [];
  game_name = chars "motk";
  game_version = [];
  max_slots = 2;
  match_caps = strict_caps;
  frame_ms = none;
}

abbrev file : List (RulesetEntry values ℕ)
file = record entry { max_slots = 4 } ∷ entry ∷ record entry { label = chars "again" } ∷ []

abbrev ranked : Ruleset values ℕ
ranked = record {
  id = chars "ranked";
  label = chars "ranked";
  game_name = chars "motk";
  game_version = [];
  max_slots = 2;
  match_caps = strict_caps;
  frame_ms = 17;
}

resolved :
    resolve values ℕ (load values ℕ (λ n. true) 17 (some file)) (chars "motk") (chars "ranked")
    ≡ some ranked
unfolding program
resolved = refl

pinned_case :
    unapproved_exemption values strict_caps (chars " HUD@1.0#ab12 " ∷ chars "skin@2#ff" ∷ []) ≡ none
unfolding program
pinned_case = refl

wrong_digest :
    unapproved_exemption values strict_caps (chars "hud@1.0" ∷ []) ≡ some (chars "hud@1.0")
unfolding program
wrong_digest = refl

resolve-IsOffer_example :
    IsOffer values ℕ (chars "motk") ranked
    × ((is_empty (chars "ranked") ≡ true) ⊎ (ranked.id ≡ chars "ranked"))
resolve-IsOffer_example =
    resolve-IsOffer values ℕ (λ n. true) 17 (some file) (chars "motk") (chars "ranked") ranked
      resolved
