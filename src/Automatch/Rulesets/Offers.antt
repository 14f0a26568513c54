-- ===== src/Automatch/Rulesets/Offers.antt =====
-- What the rulesets of a deployment guarantee to a ticket (src/automatch.rs).
use recomp_net_server.Common.{
  ◌≡◌, ◌⊎◌, inl, inr, refl, sym, subst, ◌∙◌, Option, none, some, List, [], ◌∷◌, ◌++◌, Bool, true,
  ◌==◌, nat_eq, if◌then◌else◌, find-eq-some, arith, Bool-cases, Option-cases, All, All-append,
  All-find,
}
use recomp_net_server.Common.Map
use recomp_net_server.Common.Map.{get-insert}
use recomp_net_server.Common.Text.{Text, text_eq, text_beq_iff, is_empty}
use recomp_net_server.External.{Json}
use recomp_net_server.Automatch.Rulesets.{
  RulesetEntry, Ruleset, Rulesets, validate, for_game, first_of, resolve, ruleset_of, load_entries,
  load, IsOffer, Sound,
}

module _ (j : Json) (F : Type 0) where
  for_game-insert :
      (rs : Rulesets j F) (game other : Text) (list : List (Ruleset j F))
      → for_game j F (Map.insert game list rs) other
        ≡ (if game == other then list else for_game j F rs other)
  unfolding for_game
  for_game-insert rs game other list =
      let at = get-insert game other list rs in
      elim (Bool-cases (game == other)) [
        | inl y ↦ rw (for_game, at, y) refl
        | inr n ↦ rw (for_game, at, n) refl
      ]

  first_of-All :
      (P : Ruleset j F → Type 0) (list : List (Ruleset j F)) (r : Ruleset j F)
      → All P list
      → first_of j F list ≡ some r
      → P r
  first_of-All P [] r all e = absurd (ground arith)
  first_of-All P (q ∷ list) r (h, _) e =
      let same : q ≡ r = ground arith in subst P {x = q} {y = r} same h

  module _ (is_positive : F → Bool) (default_frame_ms : F) where
    validate-IsOffer :
        (e : RulesetEntry j F) (seen : List (Text × Text))
        → validate j F e seen ≡ none
        → IsOffer j F e.game_name (ruleset_of j F is_positive default_frame_ms e)
    unfolding validate IsOffer ruleset_of
    validate-IsOffer e seen h = (refl, ground arith, ground arith, ground arith, ground arith)

    -- The loop of `load` keeps every ruleset an offer of its game.
    load_entries-Sound :
        (by_game : Rulesets j F) (seen : List (Text × Text)) (entries : List (RulesetEntry j F))
        → Sound j F by_game
        → Sound j F (load_entries j F is_positive default_frame_ms by_game seen entries)
    unfolding load_entries
    load_entries-Sound by_game seen [] h = h
    load_entries-Sound by_game seen (e ∷ entries) h = elim (Option-cases (validate j F e seen)) [
      | inr (why, refused) ↦
          subst (Sound j F) {x = load_entries j F is_positive default_frame_ms by_game seen entries}
            {y = load_entries j F is_positive default_frame_ms by_game seen (e ∷ entries)}
            (rw (load_entries, refused) refl) (load_entries-Sound by_game seen entries h)
      | inl passed ↦
          let list =
            for_game j F by_game e.game_name
            ++ (ruleset_of j F is_positive default_frame_ms e ∷ []) in
          let grown = Map.insert e.game_name list by_game in
          subst (Sound j F)
            {x = load_entries j F is_positive default_frame_ms grown
              (seen ++ ((e.game_name, e.id) ∷ [])) entries}
            {y = load_entries j F is_positive default_frame_ms by_game seen (e ∷ entries)}
            (rw (load_entries, passed) refl)
            (load_entries-Sound grown (seen ++ ((e.game_name, e.id) ∷ [])) entries
              (grown-Sound by_game e seen h passed))
    ]
      where
        grown-Sound :
            (by_game : Rulesets j F) (e : RulesetEntry j F) (seen : List (Text × Text))
            → Sound j F by_game
            → validate j F e seen ≡ none
            → Sound j F (
                Map.insert e.game_name
                  (for_game j F by_game e.game_name
                    ++ (ruleset_of j F is_positive default_frame_ms e ∷ []))
                  by_game)
        grown-Sound by_game e seen h passed game =
            let list =
              for_game j F by_game e.game_name
              ++ (ruleset_of j F is_positive default_frame_ms e ∷ []) in
            let at = for_game-insert by_game e.game_name game list in
            elim (Bool-cases (e.game_name == game)) [
              | inr n ↦
                  subst (All (IsOffer j F game)) {x = for_game j F by_game game}
                    {y = for_game j F (Map.insert e.game_name list by_game) game}
                    (sym (at ∙ rw n refl)) (h game)
              | inl y ↦
                  let (same, _) = text_beq_iff e.game_name game in
                  subst (All (IsOffer j F game)) {x = list}
                    {y = for_game j F (Map.insert e.game_name list by_game) game}
                    (sym (at ∙ rw y refl))
                    (subst (λ g. All (IsOffer j F g) list) {x = e.game_name} {y = game} (same y)
                      (All-append (IsOffer j F e.game_name) (for_game j F by_game e.game_name)
                        (ruleset_of j F is_positive default_frame_ms e ∷ []) (h e.game_name)
                        (validate-IsOffer e seen passed, tt)))
            ]

    load-Sound :
        (file : Option (List (RulesetEntry j F)))
        → Sound j F (load j F is_positive default_frame_ms file)
    unfolding load for_game Map.get
    load-Sound none game = tt
    load-Sound (some entries) game = load_entries-Sound [] [] entries (λ g. tt) game

    -- Whatever the file says, the ruleset that a request for a game and an id resolves to is of that game and,
    -- unless the request has no id, has that id; it has an id that is not blank, two slots, no mods, and
    -- caps of at most 4096 bytes.
    pub resolve-IsOffer :
        (file : Option (List (RulesetEntry j F))) (game id : Text) (r : Ruleset j F)
        → resolve j F (load j F is_positive default_frame_ms file) game id ≡ some r
        → IsOffer j F game r × ((is_empty id ≡ true) ⊎ (r.id ≡ id))
    unfolding resolve
    resolve-IsOffer file game id r h =
        let rs = load j F is_positive default_frame_ms file in
        let sound = load-Sound file game in
        elim (Bool-cases (is_empty id)) [
          | inl blank ↦ (
            first_of-All (IsOffer j F game) (for_game j F rs game) r sound (rw blank at h),
            inl blank,
          )
          | inr named ↦
              let found = rw named at h in
              let (same, _) = text_beq_iff r.id id in
              (
                All-find (IsOffer j F game) (λ q. q.id == id) (for_game j F rs game) r sound found,
                inr (same (find-eq-some (λ q. q.id == id) (for_game j F rs game) r found)),
              )
        ]
