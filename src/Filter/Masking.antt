-- ===== src/Filter/Masking.antt =====
-- What the filter's loop does to a line (src/chat_filter.rs): it moves on, ends, and only puts stars.
use recomp_net_server.Common.{
  ℕ, zero, suc, ◌≤◌, ◌<◌, ◌≡◌, ◌⊎◌, inl, inr, refl, sym, ap, subst, [], ◌∷◌, map, Bool, ltb, nat_eq,
  if◌then◌else◌, length, arith, Bool-cases,
}
use recomp_net_server.Common.Text.{Text}
use recomp_net_server.Filter.{fold, ChatFilter, star, next_position, mask_loop, mask}
use recomp_net_server.Filter.Bounds.{Full, best_end-IsEnd}

-- Every character is kept or became a star.
unfoldable pub Starred : Text → Text → Type 0
Starred [] [] = Unit
Starred [] (d ∷ t) = ⊥
Starred (c ∷ s) [] = ⊥
Starred (c ∷ s) (d ∷ t) = ((d ≡ c) ⊎ (d ≡ b'*')) × Starred s t

Starred-refl : (s : Text) → Starred s s
unfolding Starred
Starred-refl [] = tt
Starred-refl (c ∷ s) = (inl refl, Starred-refl s)

Starred-trans : (s t u : Text) → Starred s t → Starred t u → Starred s u
unfolding Starred
Starred-trans [] [] [] h k = tt
Starred-trans [] [] (x ∷ u) h k = absurd k
Starred-trans [] (x ∷ t) u h k = absurd h
Starred-trans (c ∷ s) [] u h k = absurd h
Starred-trans (c ∷ s) (d ∷ t) [] h k = absurd k
Starred-trans (c ∷ s) (d ∷ t) (e ∷ u) (h, hs) (k, ks) = (
  elim k [
    | inl same ↦ subst (λ x. (x ≡ c) ⊎ (x ≡ b'*')) {x = d} {y = e} (sym same) h
    | inr st ↦ inr st
  ],
  Starred-trans s t u hs ks,
)

star-Starred : (s : Text) (from to : ℕ) → Starred s (star s from to)
unfolding Starred star
star-Starred [] from to = tt
star-Starred (c ∷ s) from zero = (inl refl, Starred-refl s)
star-Starred (c ∷ s) zero (suc to) = (inr refl, star-Starred s zero to)
star-Starred (c ∷ s) (suc from) (suc to) = (inl refl, star-Starred s from to)

pub Starred-length : (s t : Text) → Starred s t → length t ≡ length s
unfolding Starred
Starred-length [] [] h = refl
Starred-length [] (d ∷ t) h = absurd h
Starred-length (c ∷ s) [] h = absurd h
Starred-length (c ∷ s) (d ∷ t) (_, h) = ap suc (Starred-length s t h)

pub length-star : (s : Text) (from to : ℕ) → length (star s from to) ≡ length s
length-star s from to = Starred-length s (star s from to) (star-Starred s from to)

-- A round as the loop takes it.
abbrev pub next : ChatFilter → (folded orig : Text) → ℕ → ℕ
next f folded orig i = (next_position f folded orig i).0

abbrev pub hit : ChatFilter → (folded orig : Text) → ℕ → Bool
hit f folded orig i = (next_position f folded orig i).1

abbrev pub masked : ChatFilter → (folded orig : Text) → ℕ → Text
masked f folded orig i = if hit f folded orig i then star orig i (next f folded orig i) else orig

pub length-masked :
    (f : ChatFilter) (folded orig : Text) (i : ℕ) → length (masked f folded orig i) ≡ length orig
length-masked f folded orig i = elim (Bool-cases (hit f folded orig i)) [
  | inl y ↦ rw y (length-star orig i (next f folded orig i))
  | inr n ↦ rw n refl
]

masked-Starred :
    (f : ChatFilter) (folded orig : Text) (i : ℕ) → Starred orig (masked f folded orig i)
masked-Starred f folded orig i = elim (Bool-cases (hit f folded orig i)) [
  | inl y ↦ rw y (star-Starred orig i (next f folded orig i))
  | inr n ↦ rw n (Starred-refl orig)
]

pub next-gt :
    (f : ChatFilter) (folded orig : Text) (i : ℕ)
    → Full f.words
    → i < length folded
    → (i < next f folded orig i) × (next f folded orig i ≤ length folded)
unfolding next_position
next-gt f folded orig i full h =
    let end =
      best_end-IsEnd folded orig i (omega arith) f.words 0 full (λ z. absurd (omega arith)) in
    ground (arith, end)

mask_loop-Starred :
    (f : ChatFilter) (folded : Text) (fuel : ℕ) (orig : Text) (hits i : ℕ)
    → Starred orig (mask_loop f folded fuel orig hits i).0
unfolding mask_loop
mask_loop-Starred f folded zero orig hits i = Starred-refl orig
mask_loop-Starred f folded (suc fuel) orig hits i = elim (Bool-cases (ltb i (length orig))) [
  | inl go ↦ rw go (
      Starred-trans orig (masked f folded orig i) _ (masked-Starred f folded orig i)
        (mask_loop-Starred f folded fuel (masked f folded orig i) _ (next f folded orig i)))
  | inr stop ↦ rw stop (Starred-refl orig)
]

-- Masking a line keeps its length, and each character of it is kept or replaced by a star.
pub mask-Starred : (f : ChatFilter) (text : Text) → Starred text (mask f text)
unfolding mask
mask-Starred f text =
    let loop = mask_loop-Starred f (map fold text) (length text) text 0 0 in
    let same = Starred-refl text in ground (arith, loop, same)
