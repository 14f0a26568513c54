-- ===== src/Chat/Reports/Evidence.antt =====
-- What a report puts into the moderation queue (src/ws_lobby.rs, src/moderation.rs).
use mathlib.Core.Option.{map as map_option}
use recomp_net_server.Common.{
  ℕ, ◌≡◌, ◌⊎◌, inl, inr, refl, sym, subst, ◌∙◌, Option, none, some, List, [], ◌∷◌, ◌++◌, Bool,
  false, leb, ◌==◌, nat_eq, if◌then◌else◌, any, arith, Bool-cases, Option-cases,
}
use recomp_net_server.Common.Text.{Text, text_eq, is_empty}
use recomp_net_server.Moderation.{
  ChatReport, Row, clamp, bound, same_key, recent_report_count, record_report,
}
use recomp_net_server.Chat.{ChatLine, ChatLog, chat_with_context}
use recomp_net_server.Chat.Ring.{line_of-id, chat_with_context-line_of}
use recomp_net_server.Chat.Reports.{
  InMsg, MessageId, blank, unknown, numbered, ids_of, find_line, others_of, report_of, report_ids,
  handle_chat_report,
}

-- The row is about a line of the ring that somebody else with an account wrote, in the server's words.
unfoldable pub IsEvidence : ChatLog → (account : Option Text) → Row → Type 0
IsEvidence g account row =
    (account ≡ some row.report.reporter_id)
    × ((row.report.accused_id == row.report.reporter_id) ≡ false)
    × (is_empty row.report.accused_id ≡ false)
    × ((line : ChatLine) × (map_option (λ found. found.0)
            (chat_with_context g row.report.message_id)
          ≡ some line)
        × (row.report.accused_id ≡ line.from_account)
        × (row.report.message_text ≡ clamp line.text 512)
        × (row.report.accused_name ≡ clamp line.from_name 64))

-- The table is as it was, or it has one more row.
unfoldable pub IsFiled : ChatLog → (account : Option Text) → (before after : List Row) → Type 0
IsFiled g account before after =
    (after ≡ before) ⊎ ((row : Row) × (after ≡ before ++ (row ∷ [])) × IsEvidence g account row)

record_report-rows :
    (seen : List Row) (counted : ℕ) (rows : List Row) (now : ℕ) (reads writes : Bool)
    (dump_path : Text) (r : ChatReport)
    → ((record_report seen counted rows now reads writes dump_path r).0 ≡ rows)
      ⊎ ((record_report seen counted rows now reads writes dump_path r).0
          ≡ rows ++ (record { report = bound r; dump_path = dump_path; created_at = now } ∷ []))
unfolding record_report
record_report-rows seen counted rows now reads writes dump_path r =
    let recent = if reads then recent_report_count seen counted r.reporter_id else 0 in
    elim (Bool-cases (leb 20 recent)) [
      | inl limited ↦ inl (rw limited refl)
      | inr room ↦ (elim (Bool-cases writes) [
        | inr down ↦ inl (rw (room, down) refl)
        | inl up ↦ (elim (Bool-cases (any (same_key r) rows)) [
          | inl again ↦ inl (rw (room, up, again) refl)
          | inr new ↦ inr (rw (room, up, new) refl)
        ])
      ])
    ]

-- The line that an id finds is the line that the id's number finds.
find_line-id :
    (g : ChatLog) (id : MessageId) (line : ChatLine) (context : Text)
    → find_line g id ≡ some (line, context)
    → map_option (λ found. found.0) (chat_with_context g line.id) ≡ some line
unfolding find_line
find_line-id g blank line context e = absurd (ground arith)
find_line-id g unknown line context e = absurd (ground arith)
find_line-id g (numbered n) line context e =
    let found : map_option (λ found. found.0) (chat_with_context g n) ≡ some line = rw e refl in
    let own = line_of-id n g.chat_ring line (sym (chat_with_context-line_of g n) ∙ found) in
    subst (λ m. map_option (λ found. found.0) (chat_with_context g m) ≡ some line) {x = n}
      {y = line.id} (sym own) found

report_of-IsEvidence :
    (g : ChatLog) (id : MessageId) (line : ChatLine) (context : Text) (others : List Text)
    (msg : InMsg) (reporter_id : Text) (dump_path : Text) (now : ℕ)
    → find_line g id ≡ some (line, context)
    → is_empty line.from_account ≡ false
    → (line.from_account == reporter_id) ≡ false
    → IsEvidence g (some reporter_id) (record {
      report = bound (report_of reporter_id line context others msg);
      dump_path = dump_path;
      created_at = now;
    })
unfolding IsEvidence report_of bound
report_of-IsEvidence g id line context others msg reporter_id dump_path now e named other =
    (refl, other, named, (line, find_line-id g id line context e, refl, refl, refl))

report_ids-IsFiled :
    (g : ChatLog) (account : Option Text) (seen : List Row) (counted : ℕ) (rows : List Row)
    (now : ℕ) (reads writes : Bool) (dump_path : Text) (msg : InMsg) (ids : List MessageId)
    → IsFiled g account rows
        (report_ids g account seen counted rows now reads writes dump_path msg ids).0
unfolding IsFiled report_ids
report_ids-IsFiled g account seen counted rows now reads writes dump_path msg [] = inl refl
report_ids-IsFiled g none seen counted rows now reads writes dump_path msg (id ∷ ids) = inl refl
report_ids-IsFiled g (some reporter_id) seen counted rows now reads writes dump_path msg
      (id ∷ ids) =
    elim (Option-cases (find_line g id)) [
      | inl gone ↦ inl (rw (gone, report_ids) refl)
      | inr ((line, context), e) ↦ (elim (Bool-cases (is_empty line.from_account)) [
        | inl guest ↦ inl (rw (e, report_ids, guest) refl)
        | inr named ↦ (elim (Bool-cases (line.from_account == reporter_id)) [
          | inl self ↦ inl (rw (e, report_ids, named, self) refl)
          | inr other ↦
              (elim (record_report-rows seen counted rows now reads writes dump_path
                (report_of reporter_id line context (others_of g (id ∷ ids)) msg)) [
                  | inl same ↦ inl (rw (e, report_ids, named, other) same)
                  | inr more ↦ inr (
                    record {
                      report =
                          bound (report_of reporter_id line context (others_of g (id ∷ ids)) msg);
                      dump_path = dump_path;
                      created_at = now;
                    },
                    rw (e, report_ids, named, other) more,
                    report_of-IsEvidence g id line context (others_of g (id ∷ ids)) msg reporter_id
                        dump_path now e named other,
                  )
                ])
        ])
      ])
    ]

-- Whatever a client sends and whatever the database answers, a report leaves the moderation table as it was
-- or appends one row. That row carries the account of the reporter's connection, and an accused that is
-- another, non-empty account; its message id finds a line of the ring of which the row has the account,
-- the text and the name, clamped.
pub handle_chat_report-IsFiled :
    (g : ChatLog) (account : Option Text) (seen : List Row) (counted : ℕ) (rows : List Row)
    (now : ℕ) (reads writes : Bool) (dump_path : Text) (msg : InMsg)
    → IsFiled g account rows
        (handle_chat_report g account seen counted rows now reads writes dump_path msg).0
unfolding handle_chat_report
handle_chat_report-IsFiled g account seen counted rows now reads writes dump_path msg =
    report_ids-IsFiled g account seen counted rows now reads writes dump_path msg (ids_of msg)
