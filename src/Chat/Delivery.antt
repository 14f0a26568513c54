-- ===== src/Chat/Delivery.antt =====
-- `handle_chat` and `handle_server_chat` of src/ws_lobby.rs: to whom a line goes. Of a lobby its title
-- and its members in the order of `Lobby::everyone` are kept; the messages are returned with the client
-- that each goes to.
pub mod Relayed
pub mod Audience
pub mod Examples
use recomp_net_server.Common.{
  ℕ, zero, suc, Option, none, some, List, [], ◌∷◌, ◌++◌, map, Bool, true, false, not, ◌==◌,
  PartialEq, String, if◌then◌else◌, retain, find,
}
use recomp_net_server.Common.Map
use recomp_net_server.Common.Options.{◌>>=◌}
use recomp_net_server.Common.Text.{Text, text_eq, is_empty, chars}
use recomp_net_server.Filter.{ChatFilter}
use recomp_net_server.Chat.{ChatLine, ChatLog, remember_chat, chat_text}

pub record ClientMeta : Type 0 where
  pub player_id : Text
  pub account : Option Text
  pub display_name : Text
  pub game_name : Text
  pub lobby_id : Option Text

-- A member is its id and the name of its seat.
pub record Room : Type 0 where
  pub game_name : Text
  pub everyone : List (Text × Text)

pub record ChatHub : Type 0 where
  pub clients : List (Text × ClientMeta)
  pub lobbies : List (Text × Room)
  pub log : ChatLog

pub data Message : Type 0 where
  error_code : String → Message
  relayed : (from_player_id : Text) → ChatLine → Message

abbrev pub text_or_default : Option Text → Text
text_or_default none = []
text_or_default (some t) = t

abbrev pub title_of : Option Room → Text
title_of none = []
title_of (some l) = l.game_name

unfoldable pub game_scope_for : ChatHub → Text → Text
game_scope_for g player_id = elim (Map.get player_id g.clients) [
  | none ↦ []
  | some c ↦
      if not (is_empty c.game_name)
      then c.game_name
      else title_of (c.lobby_id >>= λ id. Map.get id g.lobbies)
]

-- What a sender writes into the log and sends to the targets.
unfoldable pub relay : ChatHub → Text → ChatLine → List Text → ChatHub × List (Text × Message)
relay g player_id line targets =
    let (log, mid) = remember_chat g.log line in
    let sent : ChatLine = record line { id = mid } in
    (record g { log = log }, map (λ t. (t, relayed player_id sent)) targets)

abbrev pub account_of : ChatHub → Text → Text
account_of g player_id = text_or_default (Map.get player_id g.clients >>= λ c. c.account)

abbrev pub game_of : Option ClientMeta → Text
game_of none = []
game_of (some c) = c.game_name

unfoldable pub handle_chat : ChatFilter → ChatHub → Text → Text → ChatHub × List (Text × Message)
handle_chat f g player_id text = elim (chat_text f text) [
  | none ↦ (g, [])
  | some t ↦ (elim (Map.get player_id g.clients >>= λ c. c.lobby_id) [
    | none ↦ (g, (player_id, error_code "not_in_lobby") ∷ [])
    | some lid ↦ (elim (Map.get lid g.lobbies) [
      | none ↦ (g, [])
      | some lobby ↦ (elim (find (λ s. s.0 == player_id) lobby.everyone) [
        | none ↦ (g, [])
        | some (_, name) ↦
            relay g player_id
              (record {
                id = 0;
                from_account = account_of g player_id;
                from_name = name;
                text = t;
                scope = chars "lobby";
                lobby_id = lid;
                game_name = game_of (Map.get player_id g.clients);
              })
              (map (λ s. s.0) lobby.everyone)
      ])
    ])
  ])
]

unfoldable pub write_client : Text → (ClientMeta → ClientMeta) → ChatHub → ChatHub
write_client player_id f g = elim (Map.get player_id g.clients) [
  | none ↦ g
  | some c ↦ record g { clients = Map.insert player_id (f c) g.clients }
]

-- A title that comes with the line.
abbrev pub take_title : Option Text → Text → ChatHub → ChatHub
take_title none player_id g = g
take_title (some gn) player_id g =
    if is_empty gn then g else write_client player_id (λ c. record c { game_name = gn }) g

abbrev pub keep_scope : Text → ClientMeta → ClientMeta
keep_scope scope c = if is_empty c.game_name then record c { game_name = scope } else c

unfoldable pub audience : ChatHub → Text → List Text
audience g scope =
    map (λ kc. kc.1.player_id) (retain (λ kc. game_scope_for g kc.1.player_id == scope) g.clients)

unfoldable pub server_line : ChatHub → Text → Text → Text → ChatHub × List (Text × Message)
server_line g player_id t scope =
    let g' = write_client player_id (keep_scope scope) g in
    elim (Map.get player_id g'.clients) [
      | none ↦ (g', [])
      | some sender ↦
          relay g' player_id
            (record {
              id = 0;
              from_account = text_or_default sender.account;
              from_name = sender.display_name;
              text = t;
              scope = chars "server";
              lobby_id = [];
              game_name = scope;
            })
            (audience g' scope)
    ]

unfoldable pub handle_server_chat :
    ChatFilter → ChatHub → Text → Text → (game_name : Option Text) → ChatHub × List (Text × Message)
handle_server_chat f g player_id text game_name = elim (chat_text f text) [
  | none ↦ (g, [])
  | some t ↦
      (let g' = take_title game_name player_id g in
        let scope = game_scope_for g' player_id in
        if is_empty scope
        then (g', (player_id, error_code "no_game") ∷ [])
        else server_line g' player_id t scope)
]
