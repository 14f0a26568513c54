-- ===== src/Moderation.antt =====
-- src/moderation.rs: filing a report of a chat line. The table `chat_reports` of
-- migrations/006_chat_reports.sql is a list of rows; times are in seconds, a message id is its number,
-- and whether the database answers a read and a write is an argument, as is the path of the dump.
pub mod Filing
use recomp_net_server.Common.{
  ℕ, zero, suc, ◌+◌, ◌-◌, min, Option, none, some, List, [], ◌∷◌, ◌++◌, Bool, true, false, not,
  ◌&&◌, ltb, leb, ◌==◌, PartialEq, nat_eq, if◌then◌else◌, length, any, retain, contains,
}
use recomp_net_server.Common.Text.{Text, text_eq, trim, take, chars, to_ascii_lowercase}

unfoldable pub reasons : List Text
reasons =
    chars "harassment"
    ∷ chars "hate_speech"
    ∷ chars "sexual_content"
    ∷ chars "spam"
    ∷ chars "threats"
    ∷ chars "cheating_claim"
    ∷ chars "other"
    ∷ []

unfoldable pub normalize_reason : Text → Text
normalize_reason reason =
    let r = to_ascii_lowercase (trim reason) in if contains reasons r then r else chars "other"

-- The fields of `ChatReport`, and of a row.
pub record ChatReport : Type 0 where
  pub reporter_id : Text
  pub accused_id : Text
  pub message_id : ℕ
  pub message_text : Text
  pub accused_name : Text
  pub context : Text
  pub transcript : Text
  pub message_count : ℕ
  pub scope : Text
  pub lobby_id : Text
  pub game_name : Text
  pub game_version : Text
  pub platform : Text
  pub server : Text
  pub reason : Text
  pub note : Text

pub record Row : Type 0 where
  pub report : ChatReport
  pub dump_path : Text
  pub created_at : ℕ

unfoldable pub clamp : Text → ℕ → Text
clamp s n = take n (trim s)

abbrev pub reports_per_hour : ℕ
reports_per_hour = 20

-- What the statement binds. The text of a message id has at most 16 characters, so its clamp is left out.
unfoldable pub bound : ChatReport → ChatReport
bound r = record {
  reporter_id = r.reporter_id;
  accused_id = r.accused_id;
  message_id = r.message_id;
  message_text = clamp r.message_text 512;
  accused_name = clamp r.accused_name 64;
  context = clamp r.context 2048;
  transcript = clamp r.transcript 8192;
  message_count = min r.message_count 64;
  scope = clamp r.scope 16;
  lobby_id = clamp r.lobby_id 64;
  game_name = clamp r.game_name 128;
  game_version = clamp r.game_version 64;
  platform = clamp r.platform 32;
  server = clamp r.server 256;
  reason = normalize_reason r.reason;
  note = clamp r.note 500;
}

-- `WHERE reporter_id = ? AND created_at >= datetime('now', '-1 hours')`
abbrev pub is_recent : (now : ℕ) → Text → Row → Bool
is_recent now reporter row = row.report.reporter_id == reporter && leb (now - 3600) row.created_at

unfoldable pub recent_report_count : List Row → (now : ℕ) → Text → ℕ
recent_report_count rows now reporter = length (retain (is_recent now reporter) rows)

pub data Submitted : Type 0 where
  filed duplicate rate_limited failed : Submitted

-- `UNIQUE (reporter_id, message_id)`
abbrev pub same_key : ChatReport → Row → Bool
same_key r row = row.report.reporter_id == r.reporter_id && row.report.message_id == r.message_id

-- `record` counts, writes the dump and inserts, each in a statement of its own with other calls between:
-- `seen` are the rows at the count and `counted` its time, `rows` are the rows at the insertion and
-- `now` its time.
unfoldable pub record_report :
    (seen : List Row)
    → (counted : ℕ) → (rows : List Row) → (now : ℕ) → (reads writes : Bool) → (dump_path : Text)
    → ChatReport
    → List Row × Submitted
record_report seen counted rows now reads writes dump_path r =
    let recent = if reads then recent_report_count seen counted r.reporter_id else 0 in
    let row : Row = record { report = bound r; dump_path = dump_path; created_at = now } in
    if leb reports_per_hour recent
    then (rows, rate_limited)
    else if not writes
    then (rows, failed)
    else if any (same_key r) rows
    then (rows, duplicate)
    else (rows ++ (row ∷ []), filed)
