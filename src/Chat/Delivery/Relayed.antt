-- ===== src/Chat/Delivery/Relayed.antt =====
-- What holds of the lines that go out (src/ws_lobby.rs).
use mathlib.Core.Option.{map as map_option}
use recomp_net_server.Common.{
  ◌≡◌, inl, inr, refl, sym, subst, Option, none, some, List, [], ◌∷◌, map, String, ◌==◌, find, All,
  arith, Bool-cases, Option-cases,
}
use recomp_net_server.Common.Map
use recomp_net_server.Common.Options.{◌>>=◌}
use recomp_net_server.Common.Text.{Text, text_eq, is_empty}
use recomp_net_server.Filter.{ChatFilter}
use recomp_net_server.Chat.{ChatLine, ChatLog, remember_chat, chat_with_context, chat_text}
use recomp_net_server.Chat.Ring.{
  IsLog, remember_chat-IsLog, remember_chat-ids, remember_all, remember_chat-found,
}
use recomp_net_server.Chat.Delivery.{
  ClientMeta, ChatHub, Message, error_code, relayed, game_scope_for, relay, handle_chat,
  write_client, take_title, keep_scope, audience, server_line, handle_server_chat,
}

-- A message is an error for the sender, or a line of the sender that its id finds in the ring.
unfoldable pub Reportable : ChatHub → (sender : Text) → Text × Message → Type 0
Reportable g sender (to, error_code code) = to ≡ sender
Reportable g sender (to, relayed from line) =
    (from ≡ sender) × (map_option (λ found. found.0) (chat_with_context g.log line.id) ≡ some line)

-- The log stays a log, and every message is such a one.
unfoldable pub IsDelivery : Text → ChatHub × List (Text × Message) → Type 0
IsDelivery sender (g, out) = IsLog g.log × All (Reportable g sender) out

sent_to_all :
    (g : ChatHub) (sender : Text) (line : ChatLine) (targets : List Text)
    → map_option (λ found. found.0) (chat_with_context g.log line.id) ≡ some line
    → All (Reportable g sender) (map (λ t. (t, relayed sender line)) targets)
unfolding Reportable
sent_to_all g sender line [] h = tt
sent_to_all g sender line (t ∷ targets) h = ((refl, h), sent_to_all g sender line targets h)

found :
    (log : ChatLog) (line : ChatLine)
    → IsLog log
    → map_option
        (λ found. found.0)
        (chat_with_context (remember_chat log line).0 (remember_chat log line).1)
      ≡ some (record line { id = (remember_chat log line).1 })
unfolding remember_all
found log line h =
    let (_, id) = remember_chat-ids log line in
    subst
      (λ m.
        map_option (λ found. found.0) (chat_with_context (remember_chat log line).0 m)
        ≡ some (record line { id = m }))
      {x = log.next_chat_id} {y = (remember_chat log line).1} (sym id)
      (remember_chat-found log line [] h (omega arith))

relay-IsDelivery :
    (g : ChatHub) (sender : Text) (line : ChatLine) (targets : List Text)
    → IsLog g.log
    → IsDelivery sender (relay g sender line targets)
unfolding IsDelivery relay
relay-IsDelivery g sender line targets log = (
  remember_chat-IsLog g.log line log,
  sent_to_all (record g { log = (remember_chat g.log line).0 }) sender
      (record line { id = (remember_chat g.log line).1 }) targets (found g.log line log),
)

refused-IsDelivery :
    (g : ChatHub) (sender : Text) (code : String)
    → IsLog g.log
    → IsDelivery sender (g, (sender, error_code code) ∷ [])
unfolding IsDelivery Reportable
refused-IsDelivery g sender code log = (log, (refl, tt))

silent-IsDelivery : (g : ChatHub) (sender : Text) → IsLog g.log → IsDelivery sender (g, [])
unfolding IsDelivery
silent-IsDelivery g sender log = (log, tt)

write_client-log :
    (p : Text) (f : ClientMeta → ClientMeta) (g : ChatHub) → (write_client p f g).log ≡ g.log
unfolding write_client
write_client-log p f g = elim (Option-cases (Map.get p g.clients)) [
  | inl gone ↦ rw (gone, write_client) refl
  | inr (c, e) ↦ rw (e, write_client) refl
]

take_title-log : (game : Option Text) (p : Text) (g : ChatHub) → (take_title game p g).log ≡ g.log
take_title-log none p g = refl
take_title-log (some gn) p g = elim (Bool-cases (is_empty gn)) [
  | inl blank ↦ rw blank refl
  | inr title ↦ rw title (write_client-log p (λ c. record c { game_name = gn }) g)
]

server_line-IsDelivery :
    (g : ChatHub) (sender text scope : Text)
    → IsLog g.log
    → IsDelivery sender (server_line g sender text scope)
unfolding server_line
server_line-IsDelivery g sender text scope log =
    let g' = write_client sender (keep_scope scope) g in
    let log' : IsLog g'.log =
      subst IsLog {x = g.log} {y = g'.log} (sym (write_client-log sender (keep_scope scope) g))
        log in
    elim (Option-cases (Map.get sender g'.clients)) [
      | inl gone ↦ rw (gone, server_line) (silent-IsDelivery g' sender log')
      | inr (c, e) ↦ rw (e, server_line) (relay-IsDelivery g' sender _ (audience g' scope) log')
    ]

-- Whatever is said in a title's channel: the ids of the ring go on without a gap, and every message that
-- goes out is an error for the sender or a line under the sender's id, which its message id finds in the ring as it was relayed.
pub handle_server_chat-IsDelivery :
    (f : ChatFilter) (g : ChatHub) (sender text : Text) (game : Option Text)
    → IsLog g.log
    → IsDelivery sender (handle_server_chat f g sender text game)
unfolding handle_server_chat
handle_server_chat-IsDelivery f g sender text game log =
    let g' = take_title game sender g in
    let log' : IsLog g'.log =
      subst IsLog {x = g.log} {y = g'.log} (sym (take_title-log game sender g)) log in
    elim (Option-cases (chat_text f text)) [
      | inl silence ↦ rw (silence, handle_server_chat) (silent-IsDelivery g sender log)
      | inr (t, said) ↦ (elim (Bool-cases (is_empty (game_scope_for g' sender))) [
        | inl none_yet ↦
            rw (said, handle_server_chat, none_yet) (refused-IsDelivery g' sender "no_game" log')
        | inr title ↦
            rw (said, handle_server_chat, title)
              (server_line-IsDelivery g' sender t (game_scope_for g' sender) log')
      ])
    ]

-- Whatever is said in a lobby: the ids of the ring go on without a gap, and every message that goes out is an error for
-- the sender or a line under the sender's id, which its message id finds in the ring as it was relayed.
pub handle_chat-IsDelivery :
    (f : ChatFilter) (g : ChatHub) (sender text : Text)
    → IsLog g.log
    → IsDelivery sender (handle_chat f g sender text)
unfolding handle_chat
handle_chat-IsDelivery f g sender text log = elim (Option-cases (chat_text f text)) [
  | inl silence ↦ rw (silence, handle_chat) (silent-IsDelivery g sender log)
  | inr (t, said) ↦ (elim (Option-cases (Map.get sender g.clients >>= λ c. c.lobby_id)) [
    | inl out ↦ rw (said, handle_chat, out) (refused-IsDelivery g sender "not_in_lobby" log)
    | inr (lid, at) ↦ (elim (Option-cases (Map.get lid g.lobbies)) [
      | inl gone ↦ rw (said, handle_chat, at, gone) (silent-IsDelivery g sender log)
      | inr (lobby, there) ↦ (elim (Option-cases (find (λ s. s.0 == sender) lobby.everyone)) [
        | inl unseated ↦
            rw (said, handle_chat, at, there, unseated) (silent-IsDelivery g sender log)
        | inr ((_, name), seated) ↦
            rw (said, handle_chat, at, there, seated)
              (relay-IsDelivery g sender _ (map (λ s. s.0) lobby.everyone) log)
      ])
    ])
  ])
]
