-- ===== src/Chat/Delivery/Audience.antt =====
-- Who hears a line of a title's channel (src/ws_lobby.rs).
use recomp_net_server.Common.{
  ◌≡◌, ◌⊎◌, ap, inl, inr, refl, ◌∙◌, Option, none, some, List, [], ◌∷◌, map, true, false, arith,
  ◌==◌, retain, All, Bool-cases, Option-cases,
}
use recomp_net_server.Common.Map
use recomp_net_server.Common.Options.{◌>>=◌}
use recomp_net_server.Common.Text.{Text, text_eq, text_beq_iff, is_empty}
use recomp_net_server.Filter.{ChatFilter}
use recomp_net_server.Chat.{ChatLine, ChatLog, remember_chat, chat_text}
use recomp_net_server.Chat.Delivery.{
  ClientMeta, Room, title_of, ChatHub, Message, error_code, relayed, game_scope_for, relay,
  write_client, take_title, keep_scope, audience, server_line, handle_server_chat,
}

-- The client has the title itself, or it has none and sits in a lobby that has it.
unfoldable pub Plays : ChatHub → (player_id title : Text) → Type 0
Plays g player_id title =
    (c : ClientMeta) × (Map.get player_id g.clients ≡ some c)
    × ((c.game_name ≡ title)
        ⊎ ((c.game_name ≡ [])
            × (lid : Text) × (c.lobby_id ≡ some lid)
            × (l : Room) × (Map.get lid g.lobbies ≡ some l)
            × (l.game_name ≡ title)))

empty-eq : (t : Text) → is_empty t ≡ true → t ≡ []
empty-eq [] h = refl
empty-eq (c ∷ t) h = absurd (ground arith)

not_blank : (title : Text) → [] ≡ title → is_empty title ≡ false → ⊥
not_blank title blank full = ground (arith, ap (λ t. is_empty t) blank, full)

title_of-some :
    (o : Option Text) (lobbies : List (Text × Room)) (title : Text)
    → title_of (o >>= λ id. Map.get id lobbies) ≡ title
    → is_empty title ≡ false
    → (lid : Text) × (o ≡ some lid)
      × (l : Room) × (Map.get lid lobbies ≡ some l)
      × (l.game_name ≡ title)
title_of-some none lobbies title h full = absurd (not_blank title h full)
title_of-some (some lid) lobbies title h full = elim (Option-cases (Map.get lid lobbies)) [
  | inl gone ↦ absurd (not_blank title (rw gone at h) full)
  | inr (l, e) ↦ (lid, refl, l, e, rw e at h)
]

scope-Plays :
    (g : ChatHub) (x title : Text)
    → game_scope_for g x ≡ title
    → is_empty title ≡ false
    → Plays g x title
unfolding game_scope_for Plays
scope-Plays g x title h full = elim (Option-cases (Map.get x g.clients)) [
  | inl gone ↦ absurd (not_blank title (rw (game_scope_for, gone) at h) full)
  | inr (c, e) ↦ (elim (Bool-cases (is_empty c.game_name)) [
    | inr own ↦ (c, e, inl (rw (game_scope_for, e, own) at h))
    | inl untitled ↦
        let room : title_of (c.lobby_id >>= λ id. Map.get id g.lobbies) ≡ title =
          rw (game_scope_for, e, untitled) at h in
        let (lid, seated, l, at, named) = title_of-some c.lobby_id g.lobbies title room full in
        (c, e, inr (empty-eq c.game_name untitled, lid, seated, l, at, named))
  ])
]

-- Who hears a line plays the line's title, which is not empty.
unfoldable pub Hears : ChatHub → Text × Message → Type 0
Hears g (to, error_code code) = Unit
Hears g (to, relayed from line) = Plays g to line.game_name × (is_empty line.game_name ≡ false)

unfoldable pub IsAudience : ChatHub × List (Text × Message) → Type 0
IsAudience (g, out) = All (Hears g) out

plays :
    (g : ChatHub) (scope : Text) (clients : List (Text × ClientMeta))
    → All
        (λ t. game_scope_for g t ≡ scope)
        (map
          (λ kc. kc.1.player_id)
          (retain (λ kc. game_scope_for g kc.1.player_id == scope) clients))
plays g scope [] = tt
plays g scope ((k, c) ∷ clients) = elim (Bool-cases (game_scope_for g c.player_id == scope)) [
  | inr other ↦ rw other (plays g scope clients)
  | inl same ↦
      let (there, _) = text_beq_iff (game_scope_for g c.player_id) scope in
      rw same (there same, plays g scope clients)
]

heard :
    (g g' : ChatHub) (from : Text) (line : ChatLine) (targets : List Text)
    → ((t : Text) → game_scope_for g' t ≡ game_scope_for g t)
    → is_empty line.game_name ≡ false
    → All (λ t. game_scope_for g t ≡ line.game_name) targets
    → All (Hears g') (map (λ t. (t, relayed from line)) targets)
unfolding Hears
heard g g' from line [] same title h = tt
heard g g' from line (t ∷ targets) same title (a, h) = (
  (scope-Plays g' t line.game_name (same t ∙ a) title, title),
  heard g g' from line targets same title h,
)

scope-log :
    (g : ChatHub) (log : ChatLog) (t : Text)
    → game_scope_for (record g { log = log }) t ≡ game_scope_for g t
unfolding game_scope_for
scope-log g log t = refl

relay-IsAudience :
    (g : ChatHub) (from : Text) (line : ChatLine)
    → is_empty line.game_name ≡ false
    → IsAudience (relay g from line (audience g line.game_name))
unfolding IsAudience relay remember_chat audience
relay-IsAudience g from line title =
    let log = (remember_chat g.log line).0 in
    heard g (record g { log = log }) from (record line { id = (remember_chat g.log line).1 })
      (audience g line.game_name) (scope-log g log) title (plays g line.game_name g.clients)

server_line-IsAudience :
    (g : ChatHub) (sender text scope : Text)
    → is_empty scope ≡ false
    → IsAudience (server_line g sender text scope)
unfolding server_line IsAudience
server_line-IsAudience g sender text scope title =
    let g' = write_client sender (keep_scope scope) g in
    elim (Option-cases (Map.get sender g'.clients)) [
      | inl gone ↦ rw (gone, server_line) tt
      | inr (c, e) ↦ rw (e, server_line) (relay-IsAudience g' sender _ title)
    ]

-- Whatever is said in a title's channel, a line that goes out goes only to clients that play its title in the
-- hub after the call: they have that title themselves, or have none and sit in a lobby of that
-- title. The title is not empty.
pub handle_server_chat-IsAudience :
    (f : ChatFilter) (g : ChatHub) (sender text : Text) (game : Option Text)
    → IsAudience (handle_server_chat f g sender text game)
unfolding handle_server_chat IsAudience Hears
handle_server_chat-IsAudience f g sender text game =
    let g' = take_title game sender g in
    elim (Option-cases (chat_text f text)) [
      | inl silence ↦ rw (silence, handle_server_chat) tt
      | inr (t, said) ↦ (elim (Bool-cases (is_empty (game_scope_for g' sender))) [
        | inl none_yet ↦ rw (said, handle_server_chat, none_yet) (tt, tt)
        | inr title ↦
            rw (said, handle_server_chat, title)
              (server_line-IsAudience g' sender t (game_scope_for g' sender) title)
      ])
    ]
