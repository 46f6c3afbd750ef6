-- ===== src/Examples/Jobs.antt =====
-- Concrete tables of backend/src/modules/scheduler/job-queue.service.ts.
use biz_pilot_ai.Prelude.{
  ℕ, ◌+◌, ◌*◌, ◌≤◌, min, ◌≡◌, refl, false, none, some, List, [], ◌∷◌, All, ◌⊎◌, inl, update_many,
  arith,
}
use biz_pilot_ai.Errors.{plain_fault}
use biz_pilot_ai.JobQueue.{
  Job, Queue, raised, pending, running, EnqueueJobInput, enqueue_job, claim_job, start_job,
  complete_job, fail_job, backoff_ms, due_for, claimable, first_due, claim_row, take_lease,
  claimable_row,
}
use biz_pilot_ai.JobQueue.Rows.{
  Operation, enqueue, claim, start, complete, fail, retry_dead_letter, cancel_dead_letter,
  perform_all, IsConsistent,
}
use biz_pilot_ai.JobQueue.Steps.{perform_all-IsConsistent}
use biz_pilot_ai.JobQueue.Claims.{IsFirstDue, claim_job-outcome}
use biz_pilot_ai.JobQueue.Enqueueing.{enqueue_job_once}
use biz_pilot_ai.JobQueue.Leases.{
  Statement, insert, claim_write, start_write, complete_write, fail_write, retry_write,
  cancel_write, execute_all, Holds, lease_exclusive,
}
use biz_pilot_ai.JobQueue.Fencing.{stale_worker_refused, claim_job_fences}
use biz_pilot_ai.JobQueue.Retries.{
  HasWaiting, HasDead, failing_ticks, IsPaced, due_after, alone, backoff_ms_lem, dead_letter_after,
}

abbrev waiting_job : Job
waiting_job = record {
  id = 1;
  job_key = 4;
  dedupe_key = 9;
  payload = none;
  status = pending;
  attempts = 0;
  max_attempts = 2;
  next_run_at = 100;
  lease_owner = none;
  lease_expires_at = none;
  last_error = none;
  completed_at = none;
}

abbrev held_job : Job
held_job = record waiting_job {
  status = running;
  lease_owner = some 7;
  lease_expires_at = some 500;
}

abbrev waiting_queue : Queue
waiting_queue = record { jobs = waiting_job ∷ []; next_id = 2 }

abbrev held_queue : Queue
held_queue = record { jobs = held_job ∷ []; next_id = 2 }

abbrev request : EnqueueJobInput
request = record {
  job_key = 4;
  dedupe_key = 10;
  payload = some 3;
  max_attempts = none;
  run_at = none;
}

abbrev later_request : EnqueueJobInput
later_request = record request { payload = none }

waiting_queue-IsConsistent : IsConsistent waiting_queue
waiting_queue-IsConsistent = record {
  sound = (
    record { lease = (refl, refl); allowed = omega arith; attempts = omega arith; completion = tt },
    tt,
  );
  unique = (tt, tt);
  fresh = (omega arith, tt);
}

abbrev rival_statements : List (Statement × ℕ)
rival_statements =
    (claim_write 1 8 30000, 400)
    ∷ (start_write 1 8, 410)
    ∷ (complete_write 1 8, 420)
    ∷ (fail_write 1 8 (raised plain_fault) held_job, 430)
    ∷ (insert request, 440)
    ∷ (retry_write 1, 450)
    ∷ (cancel_write 1 0, 500)
    ∷ []

lease_exclusive_example : Holds 1 7 500 (execute_all rival_statements held_queue)
lease_exclusive_example =
    lease_exclusive 1 7 500 rival_statements held_queue
      (
        (tt, omega arith),
        (
          (omega arith, omega arith),
          (
            (omega arith, omega arith),
            (
              (omega arith, omega arith),
              ((tt, omega arith), ((tt, omega arith), ((tt, omega arith), tt))),
            ),
          ),
        ),
      )
      (record { issued = omega arith; held = ((λ _. (refl, refl, refl)), tt) })

abbrev day : List (Operation × ℕ)
day =
    (enqueue request, 50)
    ∷ (claim 4 7 30000, 100)
    ∷ (start 1 7, 101)
    ∷ (fail 1 7 (raised plain_fault), 102)
    ∷ (complete 1 7, 103)
    ∷ (retry_dead_letter 1, 104)
    ∷ (cancel_dead_letter 1 0, 105)
    ∷ []

perform_all-IsConsistent_example : IsConsistent (perform_all day waiting_queue)
perform_all-IsConsistent_example =
    perform_all-IsConsistent day waiting_queue (omega arith, (tt, (tt, (tt, (tt, (tt, (tt, tt)))))))
      waiting_queue-IsConsistent

claim_job-outcome_example :
    ((claim_job 4 7 30000 100 waiting_queue ≡ (none, waiting_queue))
      × All (λ j. due_for 4 100 j ≡ false) waiting_queue.jobs)
    ⊎ ((c : Job) × IsFirstDue (due_for 4 100) waiting_queue.jobs c
        × (claim_job 4 7 30000 100 waiting_queue ≡ (
          some (take_lease 7 (100 + 30000) c),
          record waiting_queue {
            jobs =
                update_many
                  (claimable_row c.id 100)
                  (take_lease 7 (100 + 30000))
                  waiting_queue.jobs;
          },
        )))
claim_job-outcome_example = claim_job-outcome 4 7 30000 100 waiting_queue waiting_queue-IsConsistent

abbrev reclaimed : Queue
reclaimed = (claim_job 4 8 30000 600 held_queue).1

abbrev reclaimed_job : Job
reclaimed_job = take_lease 8 30600 held_job

held_queue-IsConsistent : IsConsistent held_queue
held_queue-IsConsistent = record {
  sound = (
    record {
      lease = ((λ e. cc), (λ e. cc));
      allowed = omega arith;
      attempts = omega arith;
      completion = tt;
    },
    tt,
  );
  unique = (tt, tt);
  fresh = (omega arith, tt);
}

reclaimed_lem : (claim_job 4 8 30000 600 held_queue).0 ≡ some reclaimed_job
unfolding claim_job first_due claimable claim_row
reclaimed_lem = refl

claim_job_fences_example :
    (start_job 1 7 reclaimed ≡ (false, reclaimed))
    × (complete_job 1 7 700 reclaimed ≡ (false, reclaimed))
    × (fail_job 1 7 (raised plain_fault) 700 reclaimed ≡ (none, reclaimed))
claim_job_fences_example =
    claim_job_fences 4 8 7 30000 600 700 (raised plain_fault) held_queue reclaimed_job
      held_queue-IsConsistent reclaimed_lem (omega arith)

stale_worker_refused_example :
    (start_job 1 8 held_queue ≡ (false, held_queue))
    × (complete_job 1 8 300 held_queue ≡ (false, held_queue))
    × (fail_job 1 8 (raised plain_fault) 300 held_queue ≡ (none, held_queue))
stale_worker_refused_example =
    stale_worker_refused 1 8 (raised plain_fault) 300 held_queue ((λ _ e. ground arith), tt)

enqueue_job_once_example :
    enqueue_job later_request 900 (enqueue_job request 800 waiting_queue).1 ≡ (
      ((enqueue_job request 800 waiting_queue).0.0, false),
      (enqueue_job request 800 waiting_queue).1,
    )
enqueue_job_once_example = enqueue_job_once request later_request 800 900 waiting_queue refl refl

backoff_ms_lem_example :
    (backoff_ms 2 ≤ backoff_ms 3)
    × (1000 ≤ backoff_ms 2)
    × (backoff_ms 2 ≤ 30000)
    × (backoff_ms 3 ≡ min (2 * backoff_ms 2) 30000)
    × (backoff_ms (2 + 5) ≡ 30000)
backoff_ms_lem_example = backoff_ms_lem 2 3 (omega arith)

dead_letter_after_example :
    HasWaiting 4 1 2 1 2 2105
      (failing_ticks ((100, 105) ∷ []) 4 7 30000 plain_fault (alone waiting_job 2))
    × HasDead 4 1 2 2 2
        (failing_ticks ((100, 105) ∷ (2110, 2115) ∷ []) 4 7 30000 plain_fault (alone waiting_job 2))
unfolding IsPaced due_after backoff_ms
dead_letter_after_example =
    dead_letter_after waiting_job 2 7 30000 ((100, 105) ∷ []) [] 2110 2115 plain_fault (inl refl)
      refl (omega arith, (omega arith, tt))
