-- ===== src/Schedules/Claiming.antt =====
-- Occurrences are claimed once: backend/src/modules/scheduler/scheduler-tick.service.ts.
use mathlib.Core.Path.{subst}
use mathlib.Core.List.{Memᴰ}
use biz_pilot_ai.Prelude.{
  mem-update_hit, ℕ, zero, suc, ◌+◌, ◌≡◌, ◌≤◌, ◌<◌, ◌∙◌, sym, refl, ap, ◌⊎◌, inl, inr, true, false,
  ◌==◌, ==_refl, leb, List, [], ◌∷◌, some, count, update_many, update_many-none, count-none,
  count-one_of_mem, All, Apart, Bool-cases, Option-cases, find_first, find_first-append_one, arith,
}
use biz_pilot_ai.Effects.{ok}
use biz_pilot_ai.JobQueue.{Job, Queue, enqueue_job, has_keys, new_job}
use biz_pilot_ai.Schedules.Calendar.{Luxon, IsCalendar, Timing, compute_next_run_at}
use biz_pilot_ai.Schedules.NextRun.{IsTimed, compute_next_run_at_later}
use biz_pilot_ai.Schedules.Rows.{ScheduledWorkflow}
use biz_pilot_ai.Schedules.Tick.{
  Scheduler, Keys, Summary, max_coalesce_iterations, still_at, advance, coalesce, next_slot,
  job_for, claim_and_enqueue, process_schedule,
}

-- From one instant on, as many next runs as the number says are computed, each from the one before,
-- which was not after now; the last of them is reached.
pub Skips : Luxon → Timing → ℕ → ℕ → ℕ → ℕ → Type 0
Skips c s now zero from reached = from ≡ reached
Skips c s now (suc k) from reached =
    (later : ℕ) × ((from ≤ now)
      × (compute_next_run_at c s from ≡ ok later)
      × Skips c s now k later reached)

module _ (c : Luxon) (calendar : IsCalendar c) (keys : Keys) (now : ℕ) where
  -- The loop ends beyond now, or after as many skipped occurrences as it is allowed.
  coalesce_lem :
      (fuel : ℕ) (s : Timing) (next : ℕ)
      → IsTimed s
      → (reached : ℕ) × ((skipped : ℕ) × (coalesce c keys now fuel s next ≡ ok (reached, skipped))
          × (next ≤ reached)
          × Skips c s now skipped next reached
          × ((now < reached) ⊎ (skipped ≡ fuel)))
  unfolding coalesce Skips
  coalesce_lem zero s next timed = (next, (0, refl, omega arith, refl, inr refl))
  coalesce_lem (suc fuel) s next timed = elim (Bool-cases (leb next now)) [
    | inr future ↦
        (next, (0, rw (future, coalesce) refl, omega arith, refl, inl (ground (arith, future))))
    | inl past ↦
        let (later, e, on) = compute_next_run_at_later c calendar s next timed in
        let (reached, (skipped, f, beyond, skips, ends)) = coalesce_lem fuel s later timed in
        (
          reached,
          (
            suc skipped,
            rw (past, e, f, coalesce) refl,
            omega (arith, on, beyond),
            (later, (ground (arith, past), e, skips)),
            elim ends [ inl h ↦ inl h | inr h ↦ inr (ap suc h) ],
          ),
        )
  ]

  next_slot_lem :
      (read : ScheduledWorkflow)
      → IsTimed read.timing
      → (reached : ℕ) × ((skipped : ℕ) × (next_slot c keys now read ≡ ok (reached, skipped))
          × (read.next_run_at < reached)
          × ((first : ℕ) × (compute_next_run_at c read.timing read.next_run_at ≡ ok first)
              × Skips c read.timing now skipped first reached)
          × ((now < reached) ⊎ (skipped ≡ 100000)))
  unfolding next_slot
  next_slot_lem read timed =
      let (next, e, on) = compute_next_run_at_later c calendar read.timing read.next_run_at timed in
      let (reached, (skipped, f, beyond, skips, ends)) =
        coalesce_lem max_coalesce_iterations read.timing next timed in
      (
        reached,
        (skipped, rw (e, f, next_slot) refl, omega (arith, on, beyond), (next, e, skips), ends),
      )

  process_ok :
      (read : ScheduledWorkflow) (sum : Summary) (s : Scheduler) {slot : ℕ × ℕ}
      → next_slot c keys now read ≡ ok slot
      → process_schedule c keys now read sum s ≡ claim_and_enqueue c keys now read slot sum s
  unfolding process_schedule
  process_ok read sum s e = rw (e, process_schedule) refl

  claim_rows :
      (read : ScheduledWorkflow) (reached skipped : ℕ) (sum : Summary) (s : Scheduler)
      → (claim_and_enqueue c keys now read (reached, skipped) sum s).1.schedules.rows
        ≡ update_many (still_at read) (advance reached now) s.schedules.rows
  unfolding claim_and_enqueue
  claim_rows read reached skipped sum s =
      elim (Bool-cases (count (still_at read) s.schedules.rows == 1)) [
        | inl e ↦ rw (e, claim_and_enqueue) refl
        | inr e ↦ rw (e, claim_and_enqueue) refl
      ]

  claim_lost :
      (read : ScheduledWorkflow) (reached skipped : ℕ) (sum : Summary) (s : Scheduler)
      → All (λ r. still_at read r ≡ false) s.schedules.rows
      → claim_and_enqueue c keys now read (reached, skipped) sum s
        ≡ (ok (record sum { coalesced_count = sum.coalesced_count + skipped }), s)
  unfolding claim_and_enqueue
  claim_lost read reached skipped sum s gone =
      let lost : (count (still_at read) s.schedules.rows == 1) ≡ false =
        rw (count-none (still_at read) s.schedules.rows gone) refl in
      rw (lost, claim_and_enqueue)
        (ap
          (λ rows. (
            ok (record sum { coalesced_count = sum.coalesced_count + skipped }),
            record s { schedules = record s.schedules { rows = rows } },
          ))
          (update_many-none (still_at read) (advance reached now) s.schedules.rows gone))

  enqueue_known :
      (read : ScheduledWorkflow) (q : Queue)
      → (job : Job) × (find_first
            (has_keys keys.key (keys.occurrence_key read.id read.next_run_at))
            (enqueue_job (job_for c keys now read) now q).1.jobs
          ≡ some job)
  unfolding enqueue_job
  enqueue_known read q =
      elim (Option-cases
        (find_first (has_keys keys.key (keys.occurrence_key read.id read.next_run_at)) q.jobs)) [
          | inl missing ↦ (
            new_job q.next_id (job_for c keys now read) now,
            rw (missing, enqueue_job)
                (find_first-append_one
                  (has_keys keys.key (keys.occurrence_key read.id read.next_run_at)) q.jobs
                  (new_job q.next_id (job_for c keys now read) now) missing
                  (rw (==_refl keys.key, ==_refl (keys.occurrence_key read.id read.next_run_at))
                    refl)),
          )
          | inr (job, found) ↦ (job, rw (found, enqueue_job) found)
        ]

  claim_won :
      (read : ScheduledWorkflow) (reached skipped : ℕ) (sum : Summary) (s : Scheduler)
      → count (still_at read) s.schedules.rows ≡ 1
      → ((claim_and_enqueue c keys now read (reached, skipped) sum s).1.jobs
          ≡ (enqueue_job (job_for c keys now read) now s.jobs).1)
  unfolding claim_and_enqueue
  claim_won read reached skipped sum s one =
      let won : (count (still_at read) s.schedules.rows == 1) ≡ true = rw one refl in
      rw (won, claim_and_enqueue) refl

advance_moves :
    (read : ScheduledWorkflow) (reached now : ℕ) (rows : List ScheduledWorkflow)
    → read.next_run_at < reached
    → All (λ r. still_at read r ≡ false) (update_many (still_at read) (advance reached now) rows)
advance_moves read reached now [] on = tt
advance_moves read reached now (r ∷ rs) on = elim (Bool-cases (still_at read r)) [
  | inl hit ↦ rw hit (ground (arith, on), advance_moves read reached now rs on)
  | inr miss ↦ rw miss (miss, advance_moves read reached now rs on)
]

-- An occurrence is claimed once. After a tick has handled a schedule as it read it, another tick that
-- read the same occurrence, whatever its clock, claims nothing, enqueues nothing, and changes
-- nothing. The schedule must be one that validation lets pass.
pub process_schedule_once :
    (c : Luxon) (keys : Keys) (now later : ℕ) (read : ScheduledWorkflow) (sum again : Summary)
    (s : Scheduler)
    → IsCalendar c
    → IsTimed read.timing
    → (skipped : ℕ) × (process_schedule c keys later read again
          (process_schedule c keys now read sum s).1
        ≡ (
          ok (record again { coalesced_count = again.coalesced_count + skipped }),
          (process_schedule c keys now read sum s).1,
        ))
process_schedule_once c keys now later read sum again s calendar timed =
    let (reached, (k, e, on, _, _)) = next_slot_lem c calendar keys now read timed in
    let (reached', (skipped, f, _, _, _)) = next_slot_lem c calendar keys later read timed in
    let after = (process_schedule c keys now read sum s).1 in
    let moved : after.schedules.rows
        ≡ update_many (still_at read) (advance reached now) s.schedules.rows =
      ap (λ r. r.1.schedules.rows) (process_ok c calendar keys now read sum s e)
      ∙ claim_rows c calendar keys now read reached k sum s in
    (
      skipped,
      process_ok c calendar keys later read again after f
          ∙ claim_lost c calendar keys later read reached' skipped again after (
              subst (λ rows. All (λ r. still_at read r ≡ false) rows) (sym moved)
                (advance_moves read reached now s.schedules.rows on)),
    )

-- A due schedule is moved on. Where identifiers are unique and a row of the table, which validation
-- lets pass, is handled, its row then has a next run after the occurrence: the first computed after it
-- or a later one, each of those passed over being not after now, and itself after now unless 100,000
-- were passed over; and the queue has a job for the occurrence.
pub process_schedule_lem :
    (c : Luxon) (keys : Keys) (now : ℕ) (read : ScheduledWorkflow) (sum : Summary) (s : Scheduler)
    → IsCalendar c
    → IsTimed read.timing
    → Apart (λ a b. (a.id == b.id) ≡ false) s.schedules.rows
    → Memᴰ read s.schedules.rows
    → (reached : ℕ) × ((skipped : ℕ) × ((job : Job) × (read.next_run_at < reached)
          × ((first : ℕ) × (compute_next_run_at c read.timing read.next_run_at ≡ ok first)
              × Skips c read.timing now skipped first reached)
          × ((now < reached) ⊎ (skipped ≡ 100000))
          × Memᴰ
              (advance reached now read)
              (process_schedule c keys now read sum s).1.schedules.rows
          × (find_first
                (has_keys keys.key (keys.occurrence_key read.id read.next_run_at))
                (process_schedule c keys now read sum s).1.jobs.jobs
              ≡ some job)))
process_schedule_lem c keys now read sum s calendar timed apart m =
    let (reached, (k, e, on, skips, ends)) = next_slot_lem c calendar keys now read timed in
    let run = process_ok c calendar keys now read sum s e in
    let hit : still_at read read ≡ true = rw (==_refl read.id, ==_refl read.next_run_at) refl in
    let one : count (still_at read) s.schedules.rows ≡ 1 =
      count-one_of_mem (λ a b. (a.id == b.id) ≡ false) (still_at read) s.schedules.rows
        (λ a b differs p q. ground (arith, differs, p, q)) apart m hit in
    let (job, found) = enqueue_known c calendar keys now read s.jobs in
    (
      reached,
      (
        k,
        (
          job,
          on,
          skips,
          ends,
          subst (λ rows. Memᴰ (advance reached now read) rows)
              (sym (
                ap (λ r. r.1.schedules.rows) run
                ∙ claim_rows c calendar keys now read reached k sum s))
              (mem-update_hit (still_at read) (advance reached now) s.schedules.rows m hit),
          ap
                (λ q.
                  find_first (has_keys keys.key (keys.occurrence_key read.id read.next_run_at))
                    q.jobs)
                (ap (λ r. r.1.jobs) run ∙ claim_won c calendar keys now read reached k sum s one)
              ∙ found,
        ),
      ),
    )
