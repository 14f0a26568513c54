-- ===== src/Automatch/Rulesets.antt =====
-- The rulesets of src/automatch.rs: `validate`, `Rulesets::load` from the parsed file, `for_game` and
-- `resolve`. A JSON value is that of serde_json, and a frame time a value of a type with a test for more
-- than 0; the summary line of a ruleset is left out.
pub mod Offers
pub mod Examples
use recomp_net_server.Common.{
  ℕ, zero, suc, ◌≤◌, ◌≡◌, ◌⊎◌, inl, inr, refl, sym, subst, ap, ◌∙◌, Option, none, some, List, [],
  ◌∷◌, ◌++◌, Bool, true, false, not, ◌&&◌, ◌||◌, ltb, ◌==◌, PartialEq, pair_eq, nat_eq,
  if◌then◌else◌, any, contains, find, find-eq-some, arith, Bool-cases, Option-cases, All,
  All-append, is_some, is_none,
}
use recomp_net_server.Common.Map
use recomp_net_server.Common.Map.{Values, Values-get, Values-insert, get-insert}
use recomp_net_server.Common.Text.{Text, text_eq, text_beq_iff, trim, is_empty}
use recomp_net_server.External.{Json}

-- The load-time refusals.
pub data Refusal : Type 0 where
  empty_id empty_game_name duplicate bad_max_slots caps_not_table mods_not_supported
        caps_too_large :
      Refusal

abbrev pub max_caps_bytes : ℕ
max_caps_bytes = 4096

module _ (j : Json) (F : Type 0) where
  pub record RulesetEntry : Type 0 where
    pub id : Text
    pub label : Text
    pub game_name : Text
    pub game_version : Text
    pub max_slots : ℕ
    pub match_caps : j.Value
    pub frame_ms : Option F

  pub record Ruleset : Type 0 where
    pub id : Text
    pub label : Text
    pub game_name : Text
    pub game_version : Text
    pub max_slots : ℕ
    pub match_caps : j.Value
    pub frame_ms : F

  abbrev pub Rulesets : Type 0
  Rulesets = List (Text × List Ruleset)

  unfoldable pub validate : RulesetEntry → (seen : List (Text × Text)) → Option Refusal
  validate e seen =
      if is_empty (trim e.id)
      then some empty_id
      else if is_empty (trim e.game_name)
      then some empty_game_name
      else if contains seen (e.game_name, e.id)
      then some duplicate
      else if not (e.max_slots == 2)
      then some bad_max_slots
      else if not (j.is_null e.match_caps) && not (j.is_object e.match_caps)
      then some caps_not_table
      else if is_some (j.get_field e.match_caps "mods")
      then some mods_not_supported
      else if ltb max_caps_bytes (j.printed_len e.match_caps)
      then some caps_too_large
      else none

  unfoldable pub for_game : Rulesets → Text → List Ruleset
  for_game rs game = elim (Map.get game rs) [ none ↦ [] | some list ↦ list ]

  abbrev pub first_of : List Ruleset → Option Ruleset
  first_of [] = none
  first_of (r ∷ list) = some r

  unfoldable pub resolve : Rulesets → (game id : Text) → Option Ruleset
  resolve rs game id =
      if is_empty id then first_of (for_game rs game) else find (λ r. r.id == id) (for_game rs game)

  module _ (is_positive : F → Bool) (default_frame_ms : F) where
    -- `filter(|f| *f > 0.0).unwrap_or(DEFAULT_FRAME_MS)`
    abbrev frame_of : Option F → F
    frame_of none = default_frame_ms
    frame_of (some f) = if is_positive f then f else default_frame_ms

    unfoldable pub ruleset_of : RulesetEntry → Ruleset
    ruleset_of e = record {
      id = e.id;
      label = if is_empty e.label then e.id else e.label;
      game_name = e.game_name;
      game_version = e.game_version;
      max_slots = e.max_slots;
      match_caps = e.match_caps;
      frame_ms = frame_of e.frame_ms;
    }

    -- The loop of `load` over the entries of the file.
    unfoldable pub load_entries :
        Rulesets → (seen : List (Text × Text)) → List RulesetEntry → Rulesets
    load_entries by_game seen [] = by_game
    load_entries by_game seen (e ∷ entries) = elim (validate e seen) [
      | some why ↦ load_entries by_game seen entries
      | none ↦
          load_entries
            (Map.insert e.game_name (for_game by_game e.game_name ++ (ruleset_of e ∷ [])) by_game)
            (seen ++ ((e.game_name, e.id) ∷ [])) entries
    ]

    -- A file that is missing or does not parse is `none`.
    unfoldable pub load : Option (List RulesetEntry) → Rulesets
    load none = []
    load (some entries) = load_entries [] [] entries

  -- A ruleset that may be offered under a game.
  unfoldable pub IsOffer : Text → Ruleset → Type 0
  IsOffer game r =
      (r.game_name ≡ game)
      × (is_empty (trim r.id) ≡ false)
      × (r.max_slots ≡ 2)
      × (j.get_field r.match_caps "mods" ≡ none)
      × (j.printed_len r.match_caps ≤ 4096)

  abbrev pub Sound : Rulesets → Type 0
  Sound rs = (game : Text) → All (IsOffer game) (for_game rs game)
