-- ===== src/Schedules/Tick.antt =====
-- One tick: backend/src/modules/scheduler/scheduler-tick.service.ts. The handler of the jobs that a
-- tick enqueues is the step from a job to `startWorkflow`, and is left out.
use biz_pilot_ai.Prelude.{
  select, ℕ, zero, suc, ◌+◌, length, Bool, true, false, ◌&&◌, ◌==◌, leb, if◌then◌else◌, List, [],
  ◌∷◌, none, some, take, count, update_many,
}
use biz_pilot_ai.Effects.{Result, ok, err, M, resume}
use biz_pilot_ai.JobQueue.{Queue, EnqueueJobInput, enqueue_job}
use biz_pilot_ai.Schedules.Calendar.{Luxon, Timing, compute_next_run_at}
use biz_pilot_ai.Schedules.Rows.{ScheduledWorkflow, Schedules, enqueued}

abbrev pub max_schedules_per_tick : ℕ
max_schedules_per_tick = 100

abbrev pub max_coalesce_iterations : ℕ
max_coalesce_iterations = 100000

-- `key` is that of `scheduled-workflow-run`, and `occurrence_key` is the text of a schedule's
-- identifier and an instant.
pub record Scheduler : Type 0 where
  pub schedules : Schedules
  pub jobs : Queue

pub record Keys : Type 0 where
  pub key : ℕ
  pub occurrence_key : ℕ → ℕ → ℕ

pub record Summary : Type 0 where
  pub due_count : ℕ
  pub claimed_count : ℕ
  pub enqueued_count : ℕ
  pub coalesced_count : ℕ

abbrev pub is_due : ℕ → ScheduledWorkflow → Bool
is_due now s = s.enabled && leb s.next_run_at now

abbrev pub insert_earliest : ScheduledWorkflow → List ScheduledWorkflow → List ScheduledWorkflow
insert_earliest r [] = r ∷ []
insert_earliest r (s ∷ ss) =
    let rest = insert_earliest r ss in
    if leb r.next_run_at s.next_run_at then r ∷ s ∷ ss else s ∷ rest

-- `orderBy: { nextRunAt: 'asc' }`.
abbrev pub earliest_first : List ScheduledWorkflow → List ScheduledWorkflow
earliest_first [] = []
earliest_first (r ∷ rs) = insert_earliest r (earliest_first rs)

unfoldable pub due_schedules : ℕ → List ScheduledWorkflow → List ScheduledWorkflow
due_schedules now rows = take max_schedules_per_tick (earliest_first (select (is_due now) rows))

-- `claim`: the row that still has the next run that was read.
abbrev pub still_at : ScheduledWorkflow → ScheduledWorkflow → Bool
still_at read r = r.id == read.id && r.next_run_at == read.next_run_at

abbrev pub advance : ℕ → ℕ → ScheduledWorkflow → ScheduledWorkflow
advance next now r = record r {
  next_run_at = next;
  last_run_at = some now;
  last_run_status = some enqueued;
}

module _ (c : Luxon) (keys : Keys) (now : ℕ) where
  -- The loop over missed occurrences: the instant reached, and how many were skipped.
  unfoldable pub coalesce : ℕ → Timing → ℕ → Result (ℕ × ℕ)
  unfolding compute_next_run_at
  coalesce zero s next = ok (next, 0)
  coalesce (suc fuel) s next = elim (leb next now) [
    | false ↦ ok (next, 0)
    | true ↦ elim (compute_next_run_at c s next) [
      | err e ↦ err e
      | ok later ↦ elim (coalesce fuel s later) [
        | err e ↦ err e
        | ok (reached, skipped) ↦ ok (reached, suc skipped)
      ]
    ]
  ]

  unfoldable pub next_slot : ScheduledWorkflow → Result (ℕ × ℕ)
  unfolding coalesce
  next_slot read = elim (compute_next_run_at c read.timing read.next_run_at) [
    | err e ↦ err e
    | ok next ↦ coalesce max_coalesce_iterations read.timing next
  ]

  abbrev pub job_for : ScheduledWorkflow → EnqueueJobInput
  job_for read = record {
    job_key = keys.key;
    dedupe_key = keys.occurrence_key read.id read.next_run_at;
    payload = some read.id;
    max_attempts = none;
    run_at = none;
  }

  abbrev pub claimed_by_tick : ScheduledWorkflow → ℕ → Scheduler → Scheduler
  claimed_by_tick read next s = record s {
    schedules = record s.schedules {
      rows = update_many (still_at read) (advance next now) s.schedules.rows;
    };
  }

  -- The claim, and the job if the claim wrote one row.
  unfoldable pub claim_and_enqueue : ScheduledWorkflow → ℕ × ℕ → Summary → M Scheduler Summary
  unfolding enqueue_job
  claim_and_enqueue read (next, skipped) sum s =
      let counted = record sum { coalesced_count = sum.coalesced_count + skipped } in
      let after = claimed_by_tick read next s in
      elim (count (still_at read) s.schedules.rows == 1) [
        | false ↦ (ok counted, after)
        | true ↦
            let ((job, created), jobs) = enqueue_job (job_for read) now s.jobs in
            (
              ok (record counted {
                claimed_count = sum.claimed_count + 1;
                enqueued_count = if created then sum.enqueued_count + 1 else sum.enqueued_count;
              }),
              record after { jobs = jobs },
            )
      ]

  -- What the tick does for a schedule that it read as due.
  unfoldable pub process_schedule : ScheduledWorkflow → Summary → M Scheduler Summary
  unfolding next_slot claim_and_enqueue
  process_schedule read sum s = elim (next_slot read) [
    | err e ↦ (err e, s)
    | ok slot ↦ claim_and_enqueue read slot sum s
  ]

  unfoldable pub process_all : List ScheduledWorkflow → Summary → M Scheduler Summary
  unfolding process_schedule
  process_all [] sum s = (ok sum, s)
  process_all (r ∷ rs) sum s = resume (process_schedule r sum s) (process_all rs)

  unfoldable pub tick_scheduler : M Scheduler Summary
  unfolding process_all due_schedules
  tick_scheduler s =
      let due = due_schedules now s.schedules.rows in
      process_all due
        (record {
          due_count = length due;
          claimed_count = 0;
          enqueued_count = 0;
          coalesced_count = 0;
        })
        s
