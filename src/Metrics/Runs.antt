-- ===== src/Metrics/Runs.antt =====
-- Any calls of `game_label`, each of which may have read the table before others wrote (src/metrics.rs).
use recomp_net_server.Common.{
  ℕ, zero, suc, ◌+◌, max, ◌≤◌, inl, inr, List, [], ◌∷◌, ◌||◌, length, All, All-imp, arith,
  Bool-cases, is_some,
}
use recomp_net_server.Common.Map
use recomp_net_server.Common.Text.{Text, text_eq, is_empty}
use recomp_net_server.Metrics.{
  GameLabels, seed, seed_all, init_game_labels, game_label, normalize_game,
}
use recomp_net_server.Metrics.Bounded.{
  Known, Grew, Keyed, Keeps, IsGiven, IsGiven-Grew, length-insert, insert-Keyed, game_label-Keeps,
}

-- The table as it was some writes ago.
unfoldable pub seen : GameLabels → List GameLabels → ℕ → GameLabels
seen g past zero = g
seen g [] (suc ago) = g
seen g (h ∷ past) (suc ago) = seen h past ago

-- Calls one after the other in the order of their writes; each says how many writes its read missed.
unfoldable pub label_all : GameLabels → List GameLabels → List (ℕ × Text) → GameLabels × List Text
label_all g past [] = (g, [])
label_all g past ((ago, raw) ∷ calls) =
    let (g', label) = game_label (seen g past ago) g raw in
    let (last, labels) = label_all g' (g ∷ past) calls in (last, label ∷ labels)

Past : GameLabels → List GameLabels → Type 0
Past g = All (λ h. Grew h g × Keyed h.known)

seen-Grew :
    (now g : GameLabels) (past : List GameLabels) (ago : ℕ)
    → Grew g now
    → Keyed g.known
    → Past now past
    → Grew (seen g past ago) now × Keyed (seen g past ago).known
unfolding seen Past
seen-Grew now g past zero a k h = (a, k)
seen-Grew now g [] (suc ago) a k h = (a, k)
seen-Grew now g (h ∷ past) (suc ago) a k ((b, l), rest) = seen-Grew now h past ago b l rest

label_all-keeps :
    (n : ℕ) (g : GameLabels) (past : List GameLabels) (calls : List (ℕ × Text))
    → Past g past
    → Keyed g.known
    → length g.known ≤ n
    → g.limit ≤ n
    → Grew g (label_all g past calls).0
      × (length (label_all g past calls).0.known ≤ n)
      × All (IsGiven (label_all g past calls).0) (label_all g past calls).1
unfolding label_all Past Keeps
label_all-keeps n g past [] h k le lim = ((λ a b c. c), le, tt)
label_all-keeps n g past ((ago, raw) ∷ calls) h k le lim =
    let (gr, ks) = seen-Grew g g past ago (λ a b c. c) k h in
    let (grew, keyed, le', lim', given) =
      game_label-Keeps (seen g past ago) g raw n gr ks k le lim in
    let now = (game_label (seen g past ago) g raw).0 in
    let older =
      All-imp (λ o. Grew o g × Keyed o.known) (λ o. Grew o now × Keyed o.known) past
        (λ o (b, l). ((λ x y e. grew x y (b x y e)), l)) h in
    let (more, le2, all) =
      label_all-keeps n now (g ∷ past) calls ((grew, k), older) keyed le' lim' in
    ((λ a b c. more a b (grew a b c)), le2, (IsGiven-Grew now _ _ more given, all))

empty-Keyed : Keyed []
unfolding Map.get
empty-Keyed a b e = absurd (ground arith)

seed-Keyed :
    (known : Known) (raw : Text)
    → Keyed known
    → Keyed (seed known raw) × (length (seed known raw) ≤ suc (length known))
unfolding seed
seed-Keyed known raw k =
    let name = normalize_game raw in
    let (longer, _) = length-insert name name known in
    let after = insert-Keyed name known k in
    elim (Bool-cases (is_empty name || is_some (Map.get name known))) [
      | inl skip ↦ rw skip (k, omega arith)
      | inr new ↦ rw new (after, longer)
    ]

seed_all-Keyed :
    (known : Known) (allowlist : List Text)
    → Keyed known
    → Keyed (seed_all known allowlist)
      × (length (seed_all known allowlist) ≤ length known + length allowlist)
unfolding seed_all
seed_all-Keyed known [] k = (k, omega arith)
seed_all-Keyed known (raw ∷ allowlist) k =
    let (keyed, le) = seed-Keyed known raw k in
    let (keyed', le') = seed_all-Keyed (seed known raw) allowlist keyed in (keyed', omega arith)

-- From a start with any allowlist and any limit, after any calls of `game_label`, reads that missed other
-- calls' writes included: the table has no more names than the larger of the limit (at least 1) and the
-- length of the allowlist, and each label that a call gave is `unknown`, `other` or one of these names.
pub label_all-bounded :
    (allowlist : List Text) (limit : ℕ) (calls : List (ℕ × Text))
    → (length (label_all (init_game_labels allowlist limit) [] calls).0.known
        ≤ max (max limit 1) (length allowlist))
      × All
          (IsGiven (label_all (init_game_labels allowlist limit) [] calls).0)
          (label_all (init_game_labels allowlist limit) [] calls).1
unfolding init_game_labels Past
label_all-bounded allowlist limit calls =
    let (keyed, le) = seed_all-Keyed [] allowlist empty-Keyed in
    let (_, le', all) =
      label_all-keeps (max (max limit 1) (length allowlist)) (init_game_labels allowlist limit) []
        calls tt keyed (omega arith) (omega arith) in
    (le', all)
