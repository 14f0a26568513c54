-- ===== src/Lobby/Roster.antt =====
-- Any sequence of seat changes keeps the lobby well formed (src/ws_lobby.rs).
use recomp_net_server.Common.{
  ℕ, ◌≡◌, ◌⊎◌, refl, inl, inr, Bool, Option, none, some, List, [], ◌∷◌, String, nat_eq, string_eq,
  Option-cases,
}
use recomp_net_server.Lobby.{
  Lobby, Reply, refused, changed, seat_of, kick, move, seat_move, seat_swap_answer, leave_seat,
  set_ready, seat_joiner,
}
use recomp_net_server.Lobby.Seats.{IsValid, seat_of-none}
use recomp_net_server.Lobby.Joining.{seat_joiner_seats}
use recomp_net_server.Lobby.Changes.{
  Keeps-IsValid, kick-Keeps, move-Keeps, seat_move-Keeps, swap-Keeps, leave-Keeps, ready-Keeps,
}

-- The requests that change the seats of a lobby, as its members send them.
pub data Request (V : Type 0) : Type 0 where
  joins : (player_id display_name country guest_endpoint : String) → Request V
  kicks : (player_id : String) → ℕ → Request V
  moves : (player_id : String) → (from to : ℕ) → Request V
  seat_moves : (player_id : String) → ℕ → Request V
  answers : (player_id : String) → Bool → (asker : String) → Request V
  leaves : (player_id : String) → Request V
  readies : (player_id : String) → Bool → (bios mods memcard : Option V) → Request V

module _ {V : Type 0} where
  abbrev pub or_same : Lobby V → Reply V → Lobby V
  or_same l (refused e) = l
  or_same l (changed l') = l'

  abbrev or_same? : Lobby V → Option (Lobby V × Bool) → Lobby V
  or_same? l none = l
  or_same? l (some (l', b)) = l'

  -- A refused request changes nothing.
  unfoldable pub serve : Lobby V → Request V → Lobby V
  serve l (joins player_id display_name country guest_endpoint) =
      or_same l (seat_joiner l player_id display_name country guest_endpoint)
  serve l (kicks player_id n) = or_same l (kick l player_id n)
  serve l (moves player_id from to) = or_same l (move l player_id from to)
  serve l (seat_moves player_id to) = or_same l (seat_move l player_id to)
  serve l (answers player_id accept asker) = or_same? l (seat_swap_answer l player_id accept asker)
  serve l (leaves player_id) = leave_seat l player_id
  serve l (readies player_id ready bios mods memcard) =
      set_ready l player_id ready bios mods memcard

  unfoldable pub serve_all : Lobby V → List (Request V) → Lobby V
  unfolding serve
  serve_all l [] = l
  serve_all l (r ∷ rs) = serve_all (serve l r) rs

  -- No client joins that has a seat. `handle_join` tests the lobby that the client is recorded in, and
  -- not the seats.
  unfoldable pub Unseated : Lobby V → List (Request V) → Type 0
  unfolding serve
  Unseated l [] = Unit
  Unseated l (joins p d c g ∷ rs) = (seat_of l p ≡ none) × Unseated (serve l (joins p d c g)) rs
  Unseated l (kicks p n ∷ rs) = Unseated (serve l (kicks p n)) rs
  Unseated l (moves p from to ∷ rs) = Unseated (serve l (moves p from to)) rs
  Unseated l (seat_moves p to ∷ rs) = Unseated (serve l (seat_moves p to)) rs
  Unseated l (answers p accept asker ∷ rs) = Unseated (serve l (answers p accept asker)) rs
  Unseated l (leaves p ∷ rs) = Unseated (serve l (leaves p)) rs
  Unseated l (readies p ready b m c ∷ rs) = Unseated (serve l (readies p ready b m c)) rs

  pub reply-cases :
      (r : Reply V) → ((e : String) × (r ≡ refused e)) ⊎ ((l : Lobby V) × (r ≡ changed l))
  reply-cases (refused e) = inl (e, refl)
  reply-cases (changed l) = inr (l, refl)

  joins-IsValid :
      (l : Lobby V) (p d c g : String)
      → seat_of l p ≡ none
      → IsValid l
      → IsValid (or_same l (seat_joiner l p d c g))
  joins-IsValid l p d c g e v = elim (reply-cases (seat_joiner l p d c g)) [
    | inl (code, f) ↦ rw f v
    | inr (l', f) ↦ rw f (seat_joiner_seats l l' p d c g p v (seat_of-none l p e) f).0
  ]

  serve-IsValid :
      (l : Lobby V) (r : Request V) (rs : List (Request V))
      → Unseated l (r ∷ rs)
      → IsValid l
      → IsValid (serve l r)
  unfolding serve Unseated
  serve-IsValid l (joins p d c g) rs (e, u) v = joins-IsValid l p d c g e v
  serve-IsValid l (kicks p n) rs u v = elim (reply-cases (kick l p n)) [
    | inl (code, f) ↦ rw f v
    | inr (l', f) ↦ rw f (Keeps-IsValid l l' (kick-Keeps l l' p n f) v)
  ]
  serve-IsValid l (moves p from to) rs u v = elim (reply-cases (move l p from to)) [
    | inl (code, f) ↦ rw f v
    | inr (l', f) ↦ rw f (Keeps-IsValid l l' (move-Keeps l l' p from to f) v)
  ]
  serve-IsValid l (seat_moves p to) rs u v = elim (reply-cases (seat_move l p to)) [
    | inl (code, f) ↦ rw f v
    | inr (l', f) ↦ rw f (Keeps-IsValid l l' (seat_move-Keeps l l' p to v f) v)
  ]
  serve-IsValid l (answers p accept asker) rs u v =
      elim (Option-cases (seat_swap_answer l p accept asker)) [
        | inl f ↦ rw f v
        | inr ((l', b), f) ↦ rw f (Keeps-IsValid l l' (swap-Keeps l l' p asker accept b v f) v)
      ]
  serve-IsValid l (leaves p) rs u v = Keeps-IsValid l _ (leave-Keeps l p) v
  serve-IsValid l (readies p ready b m c) rs u v = Keeps-IsValid l _ (ready-Keeps l p ready b m c) v

  Unseated-serve :
      (l : Lobby V) (r : Request V) (rs : List (Request V))
      → Unseated l (r ∷ rs)
      → Unseated (serve l r) rs
  unfolding Unseated
  Unseated-serve l (joins p d c g) rs u = u.1
  Unseated-serve l (kicks p n) rs u = u
  Unseated-serve l (moves p from to) rs u = u
  Unseated-serve l (seat_moves p to) rs u = u
  Unseated-serve l (answers p accept asker) rs u = u
  Unseated-serve l (leaves p) rs u = u
  Unseated-serve l (readies p ready b m c) rs u = u

  -- If a lobby is well formed, it still is after any requests in which no client joins that has a seat
  -- in it: both seat tables have their sizes, the player seats lie below the first spectator
  -- seat, and nobody sits in two seats.
  pub serve_all-IsValid :
      (rs : List (Request V)) (l : Lobby V) → Unseated l rs → IsValid l → IsValid (serve_all l rs)
  unfolding serve_all
  serve_all-IsValid [] l u v = v
  serve_all-IsValid (r ∷ rs) l u v =
      serve_all-IsValid rs (serve l r) (Unseated-serve l r rs u) (serve-IsValid l r rs u v)
