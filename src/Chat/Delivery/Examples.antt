-- ===== src/Chat/Delivery/Examples.antt =====
-- A small hub with a lobby and a title's channel, and the theorems on src/ws_lobby.rs at it.
use recomp_net_server.Common.{◌≡◌, refl, Option, none, some, [], ◌∷◌, map, arith}
use recomp_net_server.Common.Map
use recomp_net_server.Common.Text.{Text, chars, is_whitespace, is_control, trim}
use recomp_net_server.Filter.Examples.{filter, program as masking}
use recomp_net_server.Chat.{pop_old, remember_chat, chat_text, default}
use recomp_net_server.Chat.Ring.{IsLog, Runs}
use recomp_net_server.Chat.Delivery.{
  ClientMeta, ChatHub, error_code, game_scope_for, relay, handle_chat, write_client, audience,
  server_line, handle_server_chat,
}
use recomp_net_server.Chat.Delivery.Relayed.{IsDelivery, handle_chat-IsDelivery}
use recomp_net_server.Chat.Delivery.Audience.{IsAudience, handle_server_chat-IsAudience}

program : Unit {0}
unfolding pop_old remember_chat chat_text game_scope_for relay handle_chat write_client audience
    server_line handle_server_chat masking is_whitespace is_control trim Map.get Map.insert IsLog
    Runs
program = tt

abbrev client : Text → Text → Option Text → Text × ClientMeta
client id game lobby = (
  id,
  record {
    player_id = id;
    account = some id;
    display_name = id;
    game_name = game;
    lobby_id = lobby;
  },
)

abbrev hub : ChatHub
hub = record {
  clients =
      client (chars "ann") (chars "G") (some (chars "L"))
      ∷ client (chars "bob") [] (some (chars "L"))
      ∷ client (chars "cat") (chars "H") none
      ∷ client (chars "dan") [] none
      ∷ [];
  lobbies =
      (
        chars "L",
        record {
          game_name = chars "G";
          everyone = (chars "ann", chars "Ann") ∷ (chars "bob", chars "Bob") ∷ [];
        },
      )
      ∷ [];
  log = default;
}

-- A seated client without a title of its own hears the title of its lobby.
same_title :
    map (λ m. m.0) (handle_server_chat filter hub (chars "ann") (chars "hi") none).1
    ≡ chars "ann" ∷ chars "bob" ∷ []
unfolding program
same_title = refl

same_lobby :
    map (λ m. m.0) (handle_chat filter hub (chars "bob") (chars "hi")).1
    ≡ chars "ann" ∷ chars "bob" ∷ []
unfolding program
same_lobby = refl

no_title :
    (handle_server_chat filter hub (chars "dan") (chars "hi") none).1
    ≡ (chars "dan", error_code "no_game") ∷ []
unfolding program
no_title = refl

no_lobby :
    (handle_chat filter hub (chars "cat") (chars "hi")).1
    ≡ (chars "cat", error_code "not_in_lobby") ∷ []
unfolding program
no_lobby = refl

log-IsLog : IsLog hub.log
unfolding program
log-IsLog = (tt, omega arith)

handle_chat-IsDelivery_example :
    IsDelivery (chars "bob") (handle_chat filter hub (chars "bob") (chars "hi"))
handle_chat-IsDelivery_example =
    handle_chat-IsDelivery filter hub (chars "bob") (chars "hi") log-IsLog

handle_server_chat-IsAudience_example :
    IsAudience (handle_server_chat filter hub (chars "ann") (chars "hi") none)
handle_server_chat-IsAudience_example =
    handle_server_chat-IsAudience filter hub (chars "ann") (chars "hi") none
