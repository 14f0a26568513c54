-- ===== src/Chat/Examples.antt =====
-- Small chats and reports, the tests of src/ws_lobby.rs on the ring, and the theorems at them.
use mathlib.Core.Option.{map as map_option}
use recomp_net_server.Common.{
  ◌≡◌, refl, ℕ, Option, none, some, List, [], ◌∷◌, true, length, String, arith,
}
use recomp_net_server.Common.Text.{Text, chars, is_whitespace, is_control, trim, to_ascii_lowercase}
use recomp_net_server.Filter.Examples.{filter, program as masking}
use recomp_net_server.Moderation.{
  Row, reasons, normalize_reason, clamp, bound, recent_report_count, record_report,
}
use recomp_net_server.Moderation.Filing.{
  Call, record_all, Forward, last_time, IsQueue, record_all-IsQueue,
}
use recomp_net_server.Chat.{
  ChatLine, ChatLog, pop_old, remember_chat, position, join, context_of, chat_with_context,
  chat_text, default,
}
use recomp_net_server.Chat.Ring.{IsLog, Runs, remember_all, remember_chat-found}
use recomp_net_server.Chat.Restart.{remember_chat-restart}
use recomp_net_server.Chat.Context.{HasContext, chat_with_context-HasContext}
use recomp_net_server.Chat.Reports.{
  InMsg, MessageId, blank, unknown, numbered, or_default, ids_of, find_line, others_of, report_of,
  report_ids, handle_chat_report,
}
use recomp_net_server.Chat.Reports.Evidence.{IsFiled, handle_chat_report-IsFiled}

program : Unit {0}
unfolding reasons normalize_reason clamp bound recent_report_count record_report pop_old
    remember_chat position join context_of chat_with_context chat_text remember_all or_default
    ids_of find_line others_of report_of report_ids handle_chat_report is_whitespace is_control trim
    to_ascii_lowercase record_all masking IsLog Runs Forward
program = tt

abbrev line : String → String → String → ChatLine
line account room text = record {
  id = 0;
  from_account = chars account;
  from_name = chars account;
  text = chars text;
  scope = chars "lobby";
  lobby_id = chars room;
  game_name = [];
}

abbrev talk : ChatLog
talk = remember_all default (
    line "ann" "L1" "hi"
    ∷ line "cat" "L2" "elsewhere"
    ∷ line "bob" "L1" "rude"
    ∷ line "" "L1" "a guest"
    ∷ [])

abbrev report : MessageId → InMsg
report id = record {
  mids = some (blank ∷ id ∷ []);
  mid = none;
  scope = none;
  lobby = none;
  game = some (chars "G");
  game_version = none;
  platform = none;
  server = none;
  reason = some (chars " Spam ");
  note = none;
}

-- The lines of another room are not context.
same_room_only : map_option (λ found. found.1) (chat_with_context talk 3) ≡ some (chars "ann: hi")
unfolding program
same_room_only = refl

unknown_line : chat_with_context talk 9 ≡ none
unfolding program
unknown_line = refl

controls : chat_text filter (chars " what\n the fuck ") ≡ some (chars "what the ****")
unfolding program
controls = refl

silence : chat_text filter (chars " \n ") ≡ none
unfolding program
silence = refl

abbrev answer : Option Text → MessageId → Option String
answer account id = (handle_chat_report talk account [] 7 [] 7 true true [] (report id)).1

answers :
    (answer (some (chars "ann")) (numbered 3) ≡ none)
    × (answer (some (chars "ann")) (numbered 1) ≡ some "cannot_report")
    × (answer (some (chars "ann")) (numbered 4) ≡ some "cannot_report")
    × (answer (some (chars "ann")) unknown ≡ some "message_expired")
    × (answer none (numbered 3) ≡ some "need_account")
    × (answer none blank ≡ some "bad_report")
unfolding program
answers = (refl, refl, refl, refl, refl, refl)

abbrev filed_by_ann : List Row
filed_by_ann =
    (handle_chat_report talk (some (chars "ann")) [] 7 [] 7 true true [] (report (numbered 3))).0

one_row : length filed_by_ann ≡ 1
unfolding program
one_row = refl

default-IsLog : IsLog default
unfolding program
default-IsLog = (tt, omega arith)

-- After a restart the ids begin again.
abbrev restarted : ChatLog
restarted =
    remember_all default
      (line "ann" "L1" "again" ∷ line "cat" "L1" "back" ∷ line "cat" "L1" "a threat" ∷ [])

remember_chat-found_example :
    map_option
      (λ found. found.0)
      (chat_with_context
        (remember_all (remember_chat default (line "ann" "L1" "hi")).0 (line "bob" "L1" "yo" ∷ []))
        1)
    ≡ some (record (line "ann" "L1" "hi") { id = 1 })
remember_chat-found_example =
    remember_chat-found default (line "ann" "L1" "hi") (line "bob" "L1" "yo" ∷ []) default-IsLog
      (omega arith)

handle_chat_report-IsFiled_example :
    IsFiled talk
      (some (chars "ann"))
      []
      (handle_chat_report talk (some (chars "ann")) [] 7 [] 7 true true [] (report (numbered 3))).0
handle_chat_report-IsFiled_example =
    handle_chat_report-IsFiled talk (some (chars "ann")) [] 7 [] 7 true true []
      (report (numbered 3))

now_there :
    find_line restarted (numbered 3)
    ≡ some (record (line "cat" "L1" "a threat") { id = 3 }, chars "ann: again\ncat: back")
unfolding program
now_there = refl

-- The row of the first run has the same id, so the report of the other line is answered as filed and lost.
lost :
    handle_chat_report restarted
      (some (chars "ann"))
      filed_by_ann
      90000
      filed_by_ann
      90000
      true
      true
      []
      (report (numbered 3))
    ≡ (filed_by_ann, none)
unfolding program
lost = refl

abbrev filing : (missed counted now : ℕ) → Call
filing missed counted now = record {
  missed = missed;
  counted = counted;
  now = now;
  writes = true;
  dump_path = [];
  report = report_of (chars "ann") (line "bob" "L1" "rude") [] [] (report blank);
}

-- Two calls that overlap.
abbrev calls : List Call
calls = filing 0 2 3 ∷ filing 1 3 5 ∷ []

calls-Forward : Forward 1 0 calls
unfolding program
calls-Forward = (omega arith, omega arith, omega arith, (omega arith, omega arith, omega arith, tt))

record_all-IsQueue_example : IsQueue 1 (last_time 0 calls) (record_all [] calls)
record_all-IsQueue_example = record_all-IsQueue 1 0 calls calls-Forward

reported :
    chat_with_context talk 3 ≡ some (record (line "bob" "L1" "rude") { id = 3 }, chars "ann: hi")
unfolding program
reported = refl

chat_with_context-HasContext_example :
    HasContext talk.chat_ring (record (line "bob" "L1" "rude") { id = 3 }) (chars "ann: hi")
chat_with_context-HasContext_example =
    chat_with_context-HasContext talk 3 (record (line "bob" "L1" "rude") { id = 3 })
      (chars "ann: hi") reported

remember_chat-restart_example :
    map_option
      (λ found. found.0)
      (chat_with_context
        (remember_chat
          (remember_all default (line "cat" "L1" "back" ∷ []))
          (line "cat" "L1" "a threat")).0
        (remember_chat
          (remember_all default (line "ann" "L1" "hi" ∷ []))
          (line "bob" "L1" "rude")).1)
    ≡ some (record (line "cat" "L1" "a threat") {
      id =
          (remember_chat
            (remember_all default (line "ann" "L1" "hi" ∷ []))
            (line "bob" "L1" "rude")).1;
    })
remember_chat-restart_example =
    remember_chat-restart (line "ann" "L1" "hi" ∷ []) (line "cat" "L1" "back" ∷ [])
      (line "bob" "L1" "rude") (line "cat" "L1" "a threat") refl
