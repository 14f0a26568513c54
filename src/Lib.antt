-- ===== src/Lib.antt =====
-- A verification library for recomp-net-server, the lobby and matchmaking server of recomp-net.
--
-- The server has three parts that keep state of their own. The room registry (src/rooms.rs) is
-- behind the HTTP API: rooms with numbered slots, a ready barrier that hands out a session, and the
-- bootstrap data that a client starts from. The lobby hub (src/ws_lobby.rs) is behind the WebSocket:
-- lobbies with player seats and a gallery of spectators. The automatch queue (src/automatch.rs)
-- pairs waiting tickets into offers; the handlers and the tick of src/ws_lobby.rs drive it.
--
-- Around them stand smaller parts: the country of an address (src/ip_country.rs), the chat filter
-- (src/chat_filter.rs), player names (src/names.rs), the labels and totals of the metrics
-- (src/metrics.rs), the keys of the TURN relays (src/secrets.rs), chat and its reports
-- (src/ws_lobby.rs, src/moderation.rs), and the rulesets and mod exemptions of the queue
-- (src/automatch.rs). Names applies the filter, the chat applies it to every line, and a report of a
-- line goes from the hub's ring into the moderation table.
--
-- Common holds the shared names, tests, list functions, maps as association lists and machine
-- integers, with Text (a text is a list of code points, with the classes of ASCII and of the white
-- space that src/ uses), Bytes (slices and little-endian words), Bits (exclusive or) and Options (do
-- blocks). External holds what the program takes from other packages, as records of operations with
-- named laws: JSON values and f64.
--
-- Rooms models src/rooms.rs: `RoomRegistry` is a map from room ids to `Room`, and `create`, `join`,
-- `leave`, `set_ready`, `heartbeat`, `mark_running`, `purge_stale` and the queries have their own
-- names. Its children prove: Rooms.Slots the slot search, Rooms.Invariant and Rooms.Registry the
-- invariant of the registry under any calls, Rooms.Join, Rooms.Barrier and Rooms.Bootstrap what
-- those operations do.
--
-- Automatch.Delay models the delay arithmetic of src/automatch.rs (`frames_needed` to
-- `caps_with_floor`) and Automatch.Floor proves its bounds. Automatch.Ticket models tickets, offers
-- and the rules that admit a pair; Automatch.Queue models `QueueInner` and the operations of
-- `Queue`. Its children prove: Pairing that the scan is sound and complete, Offers what a call of
-- `pair` does, Rematch the preference for a new opponent, Answers how an answer settles an offer,
-- Accounts the places of an account. Automatch.Driver models what the automatch handlers of
-- src/ws_lobby.rs do to the queue and to the strike log. Its children prove: Places and Waiting
-- invariants of any sequence of events, Strikes who is charged, Races an interleaving of two
-- attempts.
--
-- Lobby models `Slot` and `Lobby` of src/ws_lobby.rs with the two seat tables under one index, and
-- what `handle_kick`, `handle_move`, `handle_seat_move`, `handle_seat_swap_answer`, `client_leave`,
-- `handle_set_ready` and `seat_joiner_locked` do to a lobby; Lobby.Start models
-- `host_relay_decision`, `start_transport`, `handle_start` and `start_lobby`. Children prove: Seats
-- and Moves how a seat change moves the members, Changes and Roster that any requests keep the lobby
-- well formed, Joining where a joiner sits, Consent who may reseat whom, Start.Gate what a start
-- guarantees. The type of the JSON values is a parameter of `Lobby`.
--
-- Hub models the part of `HubInner` that says who sits where (clients, lobbies, next session
-- number), with `handle_create`, `handle_join`, `handle_kick`, `client_leave` and `destroy_lobby`,
-- and Hub.Match the lobby that `form_match` builds and the seating of the pair. Children prove:
-- Seating, Entries, Sessions and Runs that seats and records agree after any of those messages,
-- Match what a pair that sits elsewhere comes to.
--
-- Geo models src/ip_country.rs over the bytes of the table, with every slice that can panic as an
-- Option, and Geo.Generator the writer of tools/gen_ip_country.py. Its children prove that the
-- binary searches agree with a scan of the ranges and that reading what was written gives it back.
--
-- Filter models `parse`, `fold`, `match_at` and `mask` of src/chat_filter.rs. Names models
-- `sanitize`, `is_refused` and `acceptable` of src/names.rs. Metrics models `normalize_game`,
-- `game_label`, `match_started` and `set_matches_by_game`. Secrets models the rows of
-- `player_secrets` with `issue`, `verify_proof`, `revoke_by_proof`, `redeem`, `revoke` and
-- `revoke_all`; SHA-256 and HMAC are arguments, of which nothing is assumed.
--
-- Chat models `remember_chat`, `chat_with_context` and the text that `handle_chat` relays,
-- Chat.Reports `handle_chat_report`, and Moderation `record` of src/moderation.rs over the rows of
-- the table `chat_reports`. Children: Chat.Ring and Chat.Context on what an id finds, Chat.Restart
-- on two runs of the server, Chat.Reports.Evidence on what a report files, Moderation.Filing on the
-- table.
--
-- Chat.Delivery models `handle_chat`, `handle_server_chat` and `game_scope_for` with the clients'
-- titles, of a lobby its title and members; its children are on what goes out (Relayed) and to whom
-- (Audience).
--
-- Signal models the mailboxes of src/signal.rs, and Signal.Mailbox proves what a player drains.
--
-- Automatch.Exemptions models `unapproved_exemption` and Automatch.Rulesets `validate`,
-- `Rulesets::load`, `resolve` and `for_game`.
--
-- Bounds and fuel. The clock, random identifiers and random words are arguments. An Instant is a
-- number of nanoseconds on the native naturals. Additions of u32 and i32 wrap or saturate as in a
-- release build. The loop of `pair` runs on the number of tickets as fuel, since each round removes
-- two; pair_exhausts shows that this is enough. A binary search has one round more than it has
-- entries and is proved to end within them. The loop of `mask` has one round per character, which
-- mask_loop-ends shows to be enough; a text has at most as many lines as characters. Every other
-- loop is structural. A message id of the chat is its number, of which a client has the hexadecimal
-- text.
--
-- Not modelled: the socket loop, the JSON text of messages, lists and presence, ICE signalling of
-- the hub, accounts and sign-in with Discord, TURN credentials, configuration and start-up, HTTP
-- routes, the plain counters and the text format of the metrics, the file of a report, and the
-- summary line and retention of automatch. They read and write sockets, the database and the
-- environment. Failures of the database are modelled only where a report is recorded; of its
-- indexes, those on `chat_reports` and `secret_hash`. The order in which a HashMap is iterated is
-- that of an association list. Handlers that take the queue's or the hub's lock once are one step.
pub mod Common
pub mod External
pub mod Geo
pub mod Filter
pub mod Names
pub mod Metrics
pub mod Secrets
pub mod Moderation
pub mod Chat
pub mod Signal
pub mod Rooms
pub mod Automatch
pub mod Lobby
pub mod Hub
