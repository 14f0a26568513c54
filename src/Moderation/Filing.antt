-- ===== src/Moderation/Filing.antt =====
-- What the moderation queue keeps (src/moderation.rs).
use recomp_net_server.Common.{
  ℕ, zero, suc, ◌+◌, ◌-◌, ◌≤◌, ◌≡◌, inl, inr, refl, subst, List, [], ◌∷◌, ◌++◌, Bool, true, false,
  ◌&&◌, leb, ◌==◌, nat_eq, if◌then◌else◌, any, any-append, arith, length, length-retain-le,
  Bool-cases,
}
use recomp_net_server.Common.Text.{Text, text_eq, text_beq_iff, take}
use recomp_net_server.Moderation.{
  ChatReport, Row, bound, recent_report_count, is_recent, same_key, record_report,
}

-- A call of `record` at the time of its insertion. Its count, taken earlier, missed the last rows of the
-- table, which other calls inserted in between. Reads answer.
pub record Call : Type 0 where
  pub missed : ℕ
  pub counted : ℕ
  pub now : ℕ
  pub writes : Bool
  pub dump_path : Text
  pub report : ChatReport

abbrev pub seen_by : Call → List Row → List Row
seen_by c rows = take (length rows - c.missed) rows

unfoldable pub record_all : List Row → List Call → List Row
record_all rows [] = rows
record_all rows (c ∷ calls) =
    record_all
      (record_report (seen_by c rows) c.counted rows c.now true c.writes c.dump_path c.report).0
      calls

-- In the order of their insertions: the clock does not go back, a call counts before it inserts, and no
-- count misses more than `k` rows.
unfoldable pub Forward : (k : ℕ) → ℕ → List Call → Type 0
Forward k t [] = Unit
Forward k t (c ∷ calls) = (t ≤ c.now) × (c.counted ≤ c.now) × (c.missed ≤ k) × Forward k c.now calls

unfoldable pub last_time : ℕ → List Call → ℕ
last_time t [] = t
last_time t (c ∷ calls) = last_time c.now calls

-- No two rows are of one reporter and one message.
unfoldable pub Unique : List Row → Type 0
Unique [] = Unit
Unique (row ∷ rows) = (any (same_key row.report) rows ≡ false) × Unique rows

recent-later :
    (rows : List Row) (t now : ℕ) (reporter : Text)
    → t ≤ now
    → recent_report_count rows now reporter ≤ recent_report_count rows t reporter
unfolding recent_report_count
recent-later [] t now reporter h = omega arith
recent-later (row ∷ rows) t now reporter h = ground (arith, recent-later rows t now reporter h)

recent-append :
    (rows : List Row) (row : Row) (now : ℕ) (reporter : Text)
    → recent_report_count (rows ++ (row ∷ [])) now reporter
      ≡ recent_report_count rows now reporter
        + (if row.report.reporter_id == reporter && leb (now - 3600) row.created_at then 1 else 0)
unfolding recent_report_count
recent-append [] row now reporter = ground arith
recent-append (x ∷ rows) row now reporter = ground (arith, recent-append rows row now reporter)

same_key-sym : (x row : Row) → same_key x.report row ≡ same_key row.report x
same_key-sym x row = ground (
  arith,
  text_beq_iff row.report.reporter_id x.report.reporter_id,
  text_beq_iff x.report.reporter_id row.report.reporter_id,
)

Unique-append :
    (rows : List Row) (row : Row)
    → Unique rows
    → any (same_key row.report) rows ≡ false
    → Unique (rows ++ (row ∷ []))
unfolding Unique
Unique-append [] row u h = (refl, tt)
Unique-append (x ∷ rows) row (a, u) h = (
  ground (arith, same_key-sym x row, any-append (same_key x.report) rows (row ∷ []), a, h),
  Unique-append rows row u (ground arith),
)

recent-take :
    (n : ℕ) (rows : List Row) (now : ℕ) (reporter : Text)
    → recent_report_count rows now reporter
      ≤ recent_report_count (take n rows) now reporter + (length rows - n)
unfolding recent_report_count
recent-take zero rows now reporter = omega (arith, length-retain-le (is_recent now reporter) rows)
recent-take (suc n) [] now reporter = omega arith
recent-take (suc n) (row ∷ rows) now reporter = ground (arith, recent-take n rows now reporter)

-- What holds of the table at a time, when a count misses at most `k` rows.
unfoldable pub IsQueue : (k : ℕ) → ℕ → List Row → Type 0
IsQueue k now rows =
    Unique rows × ((reporter : Text) → recent_report_count rows now reporter ≤ 20 + k)

added :
    (k : ℕ) (rows : List Row) (now : ℕ) (dump_path : Text) (r : ChatReport) (reporter : Text)
    → recent_report_count rows now r.reporter_id ≤ 19 + k
    → recent_report_count rows now reporter ≤ 20 + k
    → recent_report_count
        (rows ++ (record { report = bound r; dump_path = dump_path; created_at = now } ∷ []))
        now
        reporter
      ≤ 20 + k
unfolding bound
added k rows now dump_path r reporter room few =
    let step =
      recent-append rows (record { report = bound r; dump_path = dump_path; created_at = now }) now
        reporter in
    elim (Bool-cases (r.reporter_id == reporter)) [
      | inr other ↦ ground (arith, step, other)
      | inl same ↦
          let (there, _) = text_beq_iff r.reporter_id reporter in
          let own : recent_report_count rows now reporter ≤ 19 + k =
            subst (λ q. recent_report_count rows now q ≤ 19 + k) {x = r.reporter_id} {y = reporter}
              (there same) room in
          ground (arith, step, own)
    ]

-- A count below the limit bounds the rows that are there at the insertion.
room_left :
    (k : ℕ) (c : Call) (rows : List Row)
    → c.counted ≤ c.now
    → c.missed ≤ k
    → recent_report_count (seen_by c rows) c.counted c.report.reporter_id ≤ 19
    → recent_report_count rows c.now c.report.reporter_id ≤ 19 + k
room_left k c rows before few room = omega (
  arith,
  recent-take (length rows - c.missed) rows c.now c.report.reporter_id,
  recent-later (seen_by c rows) c.counted c.now c.report.reporter_id before,
)

record_report-IsQueue :
    (k : ℕ) (rows : List Row) (t : ℕ) (c : Call)
    → t ≤ c.now
    → c.counted ≤ c.now
    → c.missed ≤ k
    → IsQueue k t rows
    → IsQueue k c.now
        (record_report (seen_by c rows) c.counted rows c.now true c.writes c.dump_path c.report).0
unfolding IsQueue record_report bound
record_report-IsQueue k rows t c h before missed (unique, few) =
    let r = c.report in
    let row : Row = record { report = bound r; dump_path = c.dump_path; created_at = c.now } in
    let later : (reporter : Text) → recent_report_count rows c.now reporter ≤ 20 + k =
      λ reporter. omega (arith, few reporter, recent-later rows t c.now reporter h) in
    elim (Bool-cases (leb 20 (recent_report_count (seen_by c rows) c.counted r.reporter_id))) [
      | inl limited ↦ rw limited (unique, later)
      | inr room ↦ (elim (Bool-cases c.writes) [
        | inr down ↦ rw (room, down) (unique, later)
        | inl up ↦ (elim (Bool-cases (any (same_key r) rows)) [
          | inl again ↦ rw (room, up, again) (unique, later)
          | inr new ↦
              rw (room, up, new)
                (
                  Unique-append rows row unique new,
                  λ reporter.
                      added k rows c.now c.dump_path r reporter
                        (room_left k c rows before missed (ground (arith, room))) (later reporter),
                )
        ])
      ])
    ]

record_all-from :
    (k : ℕ) (rows : List Row) (t : ℕ) (calls : List Call)
    → Forward k t calls
    → IsQueue k t rows
    → IsQueue k (last_time t calls) (record_all rows calls)
unfolding Forward last_time record_all
record_all-from k rows t [] h q = q
record_all-from k rows t (c ∷ calls) (le, before, missed, h) q =
    record_all-from k
      (record_report (seen_by c rows) c.counted rows c.now true c.writes c.dump_path c.report).0
      c.now calls h (record_report-IsQueue k rows t c le before missed q)

empty-IsQueue : (k t : ℕ) → IsQueue k t []
unfolding IsQueue Unique recent_report_count
empty-IsQueue k t = (tt, λ reporter. omega arith)

-- Whatever reports are filed on a table that was empty, in the order of their insertions, as long as reads of
-- the database answer, the clock does not go back, and no call's count misses more than `k` of the rows
-- that are there when it inserts (it misses those that other calls insert between the two): no two
-- rows are of one reporter and one message, and no reporter has more than 20 + k rows of the last hour.
-- Where calls do not overlap `k` is 0.
pub record_all-IsQueue :
    (k t : ℕ) (calls : List Call)
    → Forward k t calls
    → IsQueue k (last_time t calls) (record_all [] calls)
record_all-IsQueue k t calls h = record_all-from k [] t calls h (empty-IsQueue k t)
