-- ===== src/Chat/Reports.antt =====
-- `handle_chat_report` of src/ws_lobby.rs. The account of the client, what the database answers, the path of
-- the dump, and the table and the time at the count and at the insertion are arguments; the message
-- to the reporter is its code, or none for `chat_report_ok`. A message id that is not the text of a
-- number names no line.
pub mod Evidence
use recomp_net_server.Common.{
  ℕ, zero, suc, ◌+◌, Option, none, some, List, [], ◌∷◌, ◌++◌, map, Bool, true, false, not, ltb,
  ◌==◌, PartialEq, nat_eq, String, if◌then◌else◌, length, retain,
}
use recomp_net_server.Common.Text.{Text, text_eq, is_empty, take}
use recomp_net_server.Moderation.{
  ChatReport, Row, record_report, Submitted, filed, duplicate, rate_limited, failed,
}
use recomp_net_server.Chat.{ChatLine, ChatLog, chat_with_context, join}

pub data MessageId : Type 0 where
  blank unknown : MessageId
  numbered : ℕ → MessageId

-- The fields of `InMsg` that the handler reads.
pub record InMsg : Type 0 where
  pub mids : Option (List MessageId)
  pub mid : Option MessageId
  pub scope : Option Text
  pub lobby : Option Text
  pub game : Option Text
  pub game_version : Option Text
  pub platform : Option Text
  pub server : Option Text
  pub reason : Option Text
  pub note : Option Text

-- `unwrap_or_default`
unfoldable pub or_default {ℓ} : {A : Type ℓ} → Option (List A) → List A
or_default none = []
or_default (some xs) = xs

abbrev pub one_id : Option MessageId → List MessageId
one_id none = []
one_id (some id) = id ∷ []

abbrev pub is_named : MessageId → Bool
is_named blank = false
is_named unknown = true
is_named (numbered n) = true

unfoldable pub ids_of : InMsg → List MessageId
ids_of msg =
    let ids = or_default msg.mids in
    take 16 (retain is_named (if is_empty ids then one_id msg.mid else ids))

unfoldable pub find_line : ChatLog → MessageId → Option (ChatLine × Text)
find_line g blank = none
find_line g unknown = none
find_line g (numbered n) = chat_with_context g n

-- `{who}: {what}` for every id that finds a line.
unfoldable pub others_of : ChatLog → List MessageId → List Text
others_of g [] = []
others_of g (id ∷ ids) =
    let rest = others_of g ids in
    elim (find_line g id) [
      | none ↦ rest
      | some (l, _) ↦ (l.from_name ++ (b':' ∷ b' ' ∷ l.text)) ∷ rest
    ]

abbrev pub server_first : Text → Option Text → Text
server_first own given = if is_empty own then or_default given else own

unfoldable pub report_of :
    (reporter_id : Text)
    → (line : ChatLine) → (context : Text) → (others : List Text) → InMsg
    → ChatReport
report_of reporter_id line context others msg = record {
  reporter_id = reporter_id;
  accused_id = line.from_account;
  message_id = line.id;
  message_text = line.text;
  accused_name = line.from_name;
  context = context;
  transcript = join others;
  message_count = length others;
  scope = server_first line.scope msg.scope;
  lobby_id = server_first line.lobby_id msg.lobby;
  game_name = server_first line.game_name msg.game;
  game_version = or_default msg.game_version;
  platform = or_default msg.platform;
  server = or_default msg.server;
  reason = or_default msg.reason;
  note = or_default msg.note;
}

abbrev pub code_of : Submitted → Option String
code_of filed = none
code_of duplicate = none
code_of rate_limited = some "rate_limited"
code_of failed = some "report_failed"

module _ (g : ChatLog) (account : Option Text) (seen : List Row) (counted : ℕ) (rows : List Row)
    (now : ℕ) (reads writes : Bool) (dump_path : Text) where
  -- The first id is the line that is reported.
  unfoldable pub report_ids : InMsg → List MessageId → List Row × Option String
  report_ids msg [] = (rows, some "bad_report")
  report_ids msg (mid ∷ ids) = elim account [
    | none ↦ (rows, some "need_account")
    | some reporter_id ↦ (elim (find_line g mid) [
      | none ↦ (rows, some "message_expired")
      | some (line, context) ↦
          if is_empty line.from_account
          then (rows, some "cannot_report")
          else if line.from_account == reporter_id
          then (rows, some "cannot_report")
          else let report = report_of reporter_id line context (others_of g (mid ∷ ids)) msg in
            let (rows', submitted) =
              record_report seen counted rows now reads writes dump_path report in
            (rows', code_of submitted)
    ])
  ]

  unfoldable pub handle_chat_report : InMsg → List Row × Option String
  handle_chat_report msg = report_ids msg (ids_of msg)
