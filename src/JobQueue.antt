-- ===== src/JobQueue.antt =====
-- backend/src/modules/scheduler/job-queue.service.ts, and the two dead-letter operations of
-- backend/src/modules/admin/admin.service.ts, over the table of jobs. Identifiers, keys and worker
-- names, which the code only compares, are numbers; times are milliseconds, and each call is given
-- the clock value that it reads.
pub mod Rows
pub mod Steps
pub mod Claims
pub mod Enqueueing
pub mod Retries
pub mod Leases
pub mod Fencing
use biz_pilot_ai.Prelude.{
  ℕ, ◌+◌, ◌*◌, ◌^◌, min, Bool, true, false, ◌&&◌, Option, none, some, List, [], ◌∷◌, ◌++◌, leb,
  ◌==◌, if◌then◌else◌, opt_eq, opt_lt, or_else, find_first, update_many, count,
}
use biz_pilot_ai.Errors.{Thrown, app, validation_error, not_found_error}
use biz_pilot_ai.Effects.{Result, ok, err, M}

pub data JobStatus : Type 0 where
  pending claimed running retry_wait succeeded failed cancelled : JobStatus

-- What a `lastError` text is made from.
pub data Reason : Type 0 where
  no_handler : ℕ → Reason
  raised : Thrown → Reason
  cancelled_by_admin : ℕ → Reason

-- `payload` is a value that the queue only stores.
pub record Job : Type 0 where
  pub id : ℕ
  pub job_key : ℕ
  pub dedupe_key : ℕ
  pub payload : Option ℕ
  pub status : JobStatus
  pub attempts : ℕ
  pub max_attempts : ℕ
  pub next_run_at : ℕ
  pub lease_owner : Option ℕ
  pub lease_expires_at : Option ℕ
  pub last_error : Option Reason
  pub completed_at : Option ℕ

-- `next_id` is the identifier that the database generates next.
pub record Queue : Type 0 where
  pub jobs : List Job
  pub next_id : ℕ

abbrev pub default_lease_ms : ℕ
default_lease_ms = 30000

pub record EnqueueJobInput : Type 0 where
  pub job_key : ℕ
  pub dedupe_key : ℕ
  pub payload : Option ℕ
  pub max_attempts : Option ℕ
  pub run_at : Option ℕ

abbrev pub has_keys : ℕ → ℕ → Job → Bool
has_keys k d j = j.job_key == k && j.dedupe_key == d

abbrev pub has_id : ℕ → Job → Bool
has_id i j = j.id == i

abbrev pub new_job : ℕ → EnqueueJobInput → ℕ → Job
new_job id input now = record {
  id = id;
  job_key = input.job_key;
  dedupe_key = input.dedupe_key;
  payload = input.payload;
  status = pending;
  attempts = 0;
  max_attempts = or_else input.max_attempts 5;
  next_run_at = or_else input.run_at now;
  lease_owner = none;
  lease_expires_at = none;
  last_error = none;
  completed_at = none;
}

-- The insert is refused by the unique constraint on (jobKey, dedupeKey); the row is then read.
unfoldable pub enqueue_job : EnqueueJobInput → ℕ → Queue → (Job × Bool) × Queue
enqueue_job input now q = elim (find_first (has_keys input.job_key input.dedupe_key) q.jobs) [
  | some existing ↦ ((existing, false), q)
  | none ↦
      let job = new_job q.next_id input now in
      ((job, true), record q { jobs = q.jobs ++ job ∷ []; next_id = q.next_id + 1 })
]

abbrev pub claimable_as : JobStatus → ℕ → Job → Bool
claimable_as pending now j = leb j.next_run_at now
claimable_as retry_wait now j = leb j.next_run_at now
claimable_as claimed now j = opt_lt j.lease_expires_at now
claimable_as running now j = opt_lt j.lease_expires_at now
claimable_as _ now j = false

unfoldable pub claimable : ℕ → Job → Bool
claimable now j = claimable_as j.status now j

-- `orderBy: { nextRunAt: 'asc' }`; among equals the first row stands for the database's choice.
abbrev pub sooner : Job → Option Job → Job
sooner j none = j
sooner j (some k) = if leb j.next_run_at k.next_run_at then j else k

unfoldable pub first_due : (Job → Bool) → List Job → Option Job
first_due p [] = none
first_due p (j ∷ js) = let rest = first_due p js in if p j then some (sooner j rest) else rest

abbrev pub due_for : ℕ → ℕ → Job → Bool
due_for key now j = j.job_key == key && claimable now j

abbrev pub claimable_row : ℕ → ℕ → Job → Bool
claimable_row id now j = j.id == id && claimable now j

abbrev pub take_lease : ℕ → ℕ → Job → Job
take_lease worker until j = record j {
  status = claimed;
  lease_owner = some worker;
  lease_expires_at = some until;
}

-- The conditional write of a claim, with the number of rows that it changed.
unfoldable pub claim_row : ℕ → ℕ → ℕ → ℕ → Queue → ℕ × Queue
claim_row id worker lease_ms now q = (
  count (claimable_row id now) q.jobs,
  record q {
    jobs = update_many (claimable_row id now) (take_lease worker (now + lease_ms)) q.jobs;
  },
)

unfoldable pub claim_job : ℕ → ℕ → ℕ → ℕ → Queue → Option Job × Queue
unfolding claim_row first_due
claim_job key worker lease_ms now q = elim (first_due (due_for key now) q.jobs) [
  | none ↦ (none, q)
  | some candidate ↦
      let (changed, q') = claim_row candidate.id worker lease_ms now q in
      if changed == 1 then (find_first (has_id candidate.id) q'.jobs, q') else (none, q')
]

abbrev pub is_claimed : JobStatus → Bool
is_claimed claimed = true
is_claimed _ = false

abbrev pub is_running : JobStatus → Bool
is_running running = true
is_running _ = false

abbrev pub is_failed : JobStatus → Bool
is_failed failed = true
is_failed _ = false

abbrev pub claimed_by : ℕ → ℕ → Job → Bool
claimed_by id worker j = j.id == id && (is_claimed j.status && opt_eq j.lease_owner worker)

abbrev pub running_by : ℕ → ℕ → Job → Bool
running_by id worker j = j.id == id && (is_running j.status && opt_eq j.lease_owner worker)

unfoldable pub start_job : ℕ → ℕ → Queue → Bool × Queue
start_job id worker q = (
  count (claimed_by id worker) q.jobs == 1,
  record q {
    jobs = update_many (claimed_by id worker) (λ j. record j { status = running }) q.jobs;
  },
)

abbrev pub finish : ℕ → Job → Job
finish now j = record j {
  status = succeeded;
  completed_at = some now;
  lease_owner = none;
  lease_expires_at = none;
}

unfoldable pub complete_job : ℕ → ℕ → ℕ → Queue → Bool × Queue
complete_job id worker now q = (
  count (running_by id worker) q.jobs == 1,
  record q { jobs = update_many (running_by id worker) (finish now) q.jobs },
)

unfoldable pub backoff_ms : ℕ → ℕ
backoff_ms attempts = min 30000 (1000 * 2 ^ attempts)

-- The values that the write of `failJob` sets.
abbrev pub record_failure : Bool → ℕ → Reason → ℕ → Job → Job
record_failure true attempts reason now j = record j {
  status = failed;
  attempts = attempts;
  last_error = some reason;
  completed_at = some now;
  lease_owner = none;
  lease_expires_at = none;
}
record_failure false attempts reason now j = record j {
  status = retry_wait;
  attempts = attempts;
  last_error = some reason;
  next_run_at = now + backoff_ms attempts;
  lease_owner = none;
  lease_expires_at = none;
}

-- The conditional write of `failJob`, from the attempts that were read before it.
unfoldable pub fail_row : ℕ → ℕ → Reason → Job → ℕ → Queue → Option Bool × Queue
fail_row id worker reason current now q =
    let new_attempts = current.attempts + 1 in
    let terminal = leb current.max_attempts new_attempts in
    let q' = record q {
      jobs =
          update_many (running_by id worker) (record_failure terminal new_attempts reason now)
            q.jobs;
    } in
    (if count (running_by id worker) q.jobs == 1 then some terminal else none, q')

-- The result is `terminal`; `none` says that the lease is lost.
unfoldable pub fail_job : ℕ → ℕ → Reason → ℕ → Queue → Option Bool × Queue
unfolding fail_row
fail_job id worker reason now q = elim (find_first (running_by id worker) q.jobs) [
  | none ↦ (none, q)
  | some current ↦ fail_row id worker reason current now q
]

-- A handler may change the table, as other workers may while it runs.
abbrev pub JobHandler : Type 0
JobHandler = Job → M Queue (Unit {0})

abbrev pub handler_for : ℕ → List (ℕ × JobHandler) → Option JobHandler
handler_for key [] = none
handler_for key ((k, h) ∷ hs) = let rest = handler_for key hs in if k == key then some h else rest

pub data Outcome : Type 0 where
  idle : Outcome
  ran : (job_id : ℕ) (outcome : JobStatus) → Outcome

abbrev pub failure_outcome : Option Bool → JobStatus
failure_outcome (some true) = failed
failure_outcome _ = retry_wait

abbrev pub settle : Job → ℕ → ℕ → Result (Unit {0}) × Queue → Outcome × Queue
settle job worker now (ok _, q) = (ran job.id succeeded, (complete_job job.id worker now q).1)
settle job worker now (err e, q) =
    let (failure, q') = fail_job job.id worker (raised e) now q in
    (ran job.id (failure_outcome failure), q')

abbrev pub run_handler : Option JobHandler → Job → ℕ → ℕ → Queue → Outcome × Queue
run_handler none job worker now q =
    (ran job.id failed, (fail_job job.id worker (no_handler job.job_key) now q).1)
run_handler (some handler) job worker now q = settle job worker now (handler job q)

abbrev pub start_and_run : List (ℕ × JobHandler) → ℕ → ℕ → ℕ → Option Job × Queue → Outcome × Queue
start_and_run handlers key worker end (none, q) = (idle, q)
start_and_run handlers key worker end (some job, q) =
    let (started, q') = start_job job.id worker q in
    if started then run_handler (handler_for key handlers) job worker end q' else (idle, q')

-- `now` is read by the claim, `end` when the outcome is recorded.
unfoldable pub run_worker_tick : List (ℕ × JobHandler) → ℕ → ℕ → ℕ → ℕ → ℕ → Queue → Outcome × Queue
unfolding claim_job start_job complete_job fail_job
run_worker_tick handlers key worker lease_ms now end q =
    start_and_run handlers key worker end (claim_job key worker lease_ms now q)

abbrev pub failed_row : ℕ → Job → Bool
failed_row id j = j.id == id && is_failed j.status

abbrev pub after_admin_update : ℕ → ℕ → Queue → Result Job × Queue
after_admin_update id changed q = elim (find_first (has_id id) q.jobs) [
  | none ↦ (err (app not_found_error), q)
  | some job ↦ if changed == 1 then (ok job, q) else (err (app validation_error), q)
]

abbrev pub revive : ℕ → Job → Job
revive now j = record j {
  status = pending;
  attempts = 0;
  last_error = none;
  next_run_at = now;
  lease_owner = none;
  lease_expires_at = none;
}

unfoldable pub retry_dead_letter_job : ℕ → ℕ → M Queue Job
retry_dead_letter_job id now q =
    after_admin_update id (count (failed_row id) q.jobs)
      (record q { jobs = update_many (failed_row id) (revive now) q.jobs })

unfoldable pub cancel_dead_letter_job : ℕ → ℕ → M Queue Job
cancel_dead_letter_job id reason q =
    after_admin_update id (count (failed_row id) q.jobs) (record q {
      jobs =
          update_many (failed_row id)
            (λ j. record j { status = cancelled; last_error = some (cancelled_by_admin reason) })
            q.jobs;
    })

-- `getQueueDepth` at its default statuses.
abbrev pub is_waiting : JobStatus → Bool
is_waiting pending = true
is_waiting retry_wait = true
is_waiting _ = false

unfoldable pub get_queue_depth : ℕ → Queue → ℕ
get_queue_depth key q = count (λ j. j.job_key == key && is_waiting j.status) q.jobs
