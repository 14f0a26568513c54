-- ===== src/Chat.antt =====
-- The chat of src/ws_lobby.rs: the ring of relayed lines and the report of a line. A message id is its
-- number, of which the client sees the hexadecimal text.
pub mod Ring
pub mod Context
pub mod Restart
pub mod Reports
pub mod Delivery
pub mod Examples
use mathlib.Core.Option.{map as map_option}
use recomp_net_server.Common.{
  ℕ, zero, suc, ◌+◌, ◌-◌, Option, none, some, List, [], ◌∷◌, ◌++◌, map, Bool, true, false, not,
  ◌&&◌, ltb, ◌==◌, PartialEq, nat_eq, if◌then◌else◌, length, retain, get_elem?,
}
use recomp_net_server.Common.Options.{◌>>=◌}
use recomp_net_server.Common.Text.{Text, text_eq, is_empty, is_control, trim, take, chars}
use recomp_net_server.Common.Bytes.{drop}
use recomp_net_server.Filter.{ChatFilter, mask}

pub record ChatLine : Type 0 where
  pub id : ℕ
  pub from_account : Text
  pub from_name : Text
  pub text : Text
  pub scope : Text
  pub lobby_id : Text
  pub game_name : Text

abbrev pub chat_ring_max : ℕ
chat_ring_max = 1000

abbrev pub chat_context_lines : ℕ
chat_context_lines = 6

abbrev pub chat_max_chars : ℕ
chat_max_chars = 240

-- The part of `HubInner` that the chat keeps.
pub record ChatLog : Type 0 where
  pub chat_ring : List ChatLine
  pub next_chat_id : ℕ

-- `HubInner::default()`
abbrev pub default : ChatLog
default = record { chat_ring = []; next_chat_id = 1 }

-- `while len() > CHAT_RING_MAX { pop_front() }`
unfoldable pub pop_old : List ChatLine → List ChatLine
pop_old [] = []
pop_old (l ∷ ring) = if ltb chat_ring_max (length (l ∷ ring)) then pop_old ring else l ∷ ring

-- The line is given without its id, which it gets here.
unfoldable pub remember_chat : ChatLog → ChatLine → ChatLog × ℕ
remember_chat g line =
    let id = g.next_chat_id in
    (
      record {
        chat_ring = pop_old (g.chat_ring ++ (record line { id = id } ∷ []));
        next_chat_id = id + 1;
      },
      id,
    )

-- `position(|l| l.id == message_id)`
unfoldable pub position : ℕ → List ChatLine → Option ℕ
position id [] = none
position id (l ∷ ring) = if l.id == id then some 0 else map_option suc (position id ring)

-- `join("\n")`
unfoldable pub join : List Text → Text
join [] = []
join (t ∷ []) = t
join (t ∷ u ∷ ts) = t ++ (b'\n' ∷ join (u ∷ ts))

abbrev pub said : ChatLine → Text
said l = l.from_name ++ (b':' ∷ b' ' ∷ l.text)

abbrev pub same_room : ChatLine → ChatLine → Bool
same_room line l = l.scope == line.scope && l.lobby_id == line.lobby_id

-- The lines that stand before the reported one, as far as they are from its room.
unfoldable pub context_of : List ChatLine → (at : ℕ) → ChatLine → List ChatLine
context_of ring at line = retain (same_room line) (drop (at - chat_context_lines) (take at ring))

unfoldable pub chat_with_context : ChatLog → ℕ → Option (ChatLine × Text)
chat_with_context g message_id = do
  at ← position message_id g.chat_ring
  line ← get_elem? g.chat_ring at
  some (line, join (map said (context_of g.chat_ring at line)))

-- What `handle_chat` and `handle_server_chat` make of a text before they relay it: nothing, or a line
-- without control characters, capped, trimmed and masked.
unfoldable pub chat_text : ChatFilter → Text → Option Text
chat_text f text =
    let t = trim (take chat_max_chars (retain (λ c. not (is_control c)) text)) in
    if is_empty t then none else some (mask f t)
