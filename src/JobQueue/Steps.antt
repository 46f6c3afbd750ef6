-- ===== src/JobQueue/Steps.antt =====
-- Every operation of the queue keeps its table consistent.
use Prim.Native.Nat.{ℕ, ◌<◌, ◌+◌}
use biz_pilot_ai.Prelude.{
  ◌≡◌, refl, Bool, true, false, some, List, [], ◌∷◌, arith, or_else, All, leb, inl, inr, Bool-cases,
  Option-cases, find_first, ◌⊎◌, find_first_unique, find_first-eq-none, count, ◌==◌,
}
use biz_pilot_ai.JobQueue.{
  running, cancelled, Reason, Job, Queue, EnqueueJobInput, enqueue_job, new_job, claim_row,
  claim_job, start_job, complete_job, fail_job, retry_dead_letter_job, cancel_dead_letter_job,
  has_keys, has_id, first_due, due_for, running_by, claimed_by, failed_row, take_lease, finish,
  record_failure, claimable, claimable_row, revive, cancelled_by_admin, after_admin_update,
}
use biz_pilot_ai.JobQueue.Rows.{
  Operation, enqueue, claim, start, complete, fail, retry_dead_letter, cancel_dead_letter, perform,
  perform_all, IsSound, IsConsistent, Distinguishable, AllowsAttempt, Change, same, inserted,
  updated, Change-IsConsistent, SameKeys,
}

always {ℓ} : (P : Job → Type ℓ) (js : List Job) → ((j : Job) → P j) → All P js
always P [] f = tt
always P (j ∷ js) f = (f j, always P js f)

new_job-IsSound :
    (id now : ℕ) (input : EnqueueJobInput)
    → 0 < or_else input.max_attempts 5
    → IsSound (new_job id input now)
new_job-IsSound id now input h = ground arith

take_lease-IsSound :
    (id worker until now : ℕ) (j : Job)
    → IsSound j
    → claimable_row id now j ≡ true
    → IsSound (take_lease worker until j)
unfolding claimable
take_lease-IsSound id worker until now j s e = ground arith

start-IsSound :
    (id worker : ℕ) (j : Job)
    → IsSound j
    → claimed_by id worker j ≡ true
    → IsSound (record j { status = running })
start-IsSound id worker j s e = ground arith

finish-IsSound :
    (id worker now : ℕ) (j : Job)
    → IsSound j
    → running_by id worker j ≡ true
    → IsSound (finish now j)
finish-IsSound id worker now j s e = ground arith

record_failure-IsSound :
    (now : ℕ) (reason : Reason) (j : Job)
    → IsSound j
    → IsSound (record_failure (leb j.max_attempts (j.attempts + 1)) (j.attempts + 1) reason now j)
record_failure-IsSound now reason j s = ground arith

revive-IsSound :
    (id now : ℕ) (j : Job) → IsSound j → failed_row id j ≡ true → IsSound (revive now j)
revive-IsSound id now j s e = ground arith

cancel-IsSound :
    (id reason : ℕ) (j : Job)
    → IsSound j
    → failed_row id j ≡ true
    → IsSound (record j { status = cancelled; last_error = some (cancelled_by_admin reason) })
cancel-IsSound id reason j s e = ground arith

no_keys :
    (k d : ℕ) (js : List Job)
    → All (λ j. has_keys k d j ≡ false) js
    → All (λ j. j.job_key ≡ k → j.dedupe_key ≡ d → ⊥) js
no_keys k d [] h = tt
no_keys k d (j ∷ js) h = ((λ a b. cc (other a b)), no_keys k d js h.1)
  where
    other : j.job_key ≡ k → j.dedupe_key ≡ d → true ≡ false
    other a b = ground (arith, h.0)

-- The store after a claim.
pub claim_job_store :
    (key worker lease_ms now : ℕ) (q : Queue)
    → ((claim_job key worker lease_ms now q).1 ≡ q)
      ⊎ ((c : Job) × (first_due (due_for key now) q.jobs ≡ some c)
          × ((claim_job key worker lease_ms now q).1 ≡ (claim_row c.id worker lease_ms now q).1))
unfolding claim_job
claim_job_store key worker lease_ms now q =
    elim (Option-cases (first_due (due_for key now) q.jobs)) [
      | inl e ↦ inl (rw (e, claim_job))
      | inr (c, e) ↦ inr (
        c,
        e,
        elim (Bool-cases (count (claimable_row c.id now) q.jobs == 1)) [
          | inl t ↦ rw (e, claim_job, t) refl
          | inr f ↦ rw (e, claim_job, f) refl
        ],
      )
    ]

apart_by_id :
    (id worker : ℕ) (j k : Job)
    → Distinguishable j k
    → running_by id worker j ≡ true
    → running_by id worker k ≡ true
    → ⊥
apart_by_id id worker j k h e f = ground arith

-- What is written to the row that was read is right for that row.
failure_rows :
    (p : Job → Bool) (reason : Reason) (now : ℕ) (c : Job) (js : List Job)
    → All (λ j. p j ≡ true → j ≡ c) js
    → All
        (λ j.
          IsSound j
          → p j ≡ true
          → IsSound
              (record_failure (leb c.max_attempts (c.attempts + 1)) (c.attempts + 1) reason now j))
        js
failure_rows p reason now c [] h = tt
failure_rows p reason now c (j ∷ js) h = (
  (λ s e. rw (h.0 e) (record_failure-IsSound now reason c (rw (h.0 e) at s))),
  failure_rows p reason now c js h.1,
)

enqueue_job-Change :
    (input : EnqueueJobInput) (now : ℕ) (q : Queue)
    → 0 < or_else input.max_attempts 5
    → Change q (enqueue_job input now q).1
unfolding enqueue_job
enqueue_job-Change input now q pos =
    elim (Option-cases (find_first (has_keys input.job_key input.dedupe_key) q.jobs)) [
      | inl e ↦
          rw (e, enqueue_job)
            (inserted (new_job q.next_id input now) refl refl
              (no_keys input.job_key input.dedupe_key q.jobs (find_first-eq-none _ q.jobs e))
              (new_job-IsSound q.next_id now input pos))
      | inr (x, e) ↦ rw (e, enqueue_job) (same refl)
    ]

claim_row-Change :
    (id worker lease_ms now : ℕ) (q : Queue) → Change q (claim_row id worker lease_ms now q).1
unfolding claim_row
claim_row-Change id worker lease_ms now q =
    updated (claimable_row id now) (take_lease worker (now + lease_ms)) refl
      (λ j. (refl, refl, refl))
      (always _ q.jobs (take_lease-IsSound id worker (now + lease_ms) now))

pub claim_job-Change :
    (key worker lease_ms now : ℕ) (q : Queue) → Change q (claim_job key worker lease_ms now q).1
claim_job-Change key worker lease_ms now q = elim (claim_job_store key worker lease_ms now q) [
  | inl e ↦ same e
  | inr (c, _, e) ↦ rw e (claim_row-Change c.id worker lease_ms now q)
]

record_failure-SameKeys :
    (terminal : Bool) (attempts now : ℕ) (reason : Reason) (j : Job)
    → SameKeys (record_failure terminal attempts reason now j) j
record_failure-SameKeys true attempts now reason j = (refl, refl, refl)
record_failure-SameKeys false attempts now reason j = (refl, refl, refl)

fail_job-Change :
    (id worker : ℕ) (reason : Reason) (now : ℕ) (q : Queue)
    → IsConsistent q
    → Change q (fail_job id worker reason now q).1
unfolding fail_job
fail_job-Change id worker reason now q c =
    elim (Option-cases (find_first (running_by id worker) q.jobs)) [
      | inl e ↦ rw (e, fail_job) (same refl)
      | inr (x, e) ↦
          rw (e, fail_job)
            (updated (running_by id worker) _ refl
              (record_failure-SameKeys (leb x.max_attempts (x.attempts + 1)) (x.attempts + 1) now
                reason)
              (failure_rows (running_by id worker) reason now x q.jobs (
                find_first_unique Distinguishable (running_by id worker) q.jobs
                  (apart_by_id id worker) c.unique e)))
    ]

pub after_admin_update_store :
    (id changed : ℕ) (q : Queue) → (after_admin_update id changed q).1 ≡ q
after_admin_update_store id changed q = elim (Option-cases (find_first (has_id id) q.jobs)) [
  | inl e ↦ rw (e, after_admin_update)
  | inr (x, e) ↦ elim (Bool-cases (changed == 1)) [
    | inl t ↦ rw (e, after_admin_update, t) refl
    | inr f ↦ rw (e, after_admin_update, f) refl
  ]
]

perform-Change :
    (op : Operation) (now : ℕ) (q : Queue)
    → AllowsAttempt op
    → IsConsistent q
    → Change q (perform op now q)
unfolding perform start_job complete_job retry_dead_letter_job cancel_dead_letter_job
perform-Change (enqueue input) now q a c = enqueue_job-Change input now q a
perform-Change (claim key worker lease_ms) now q a c = claim_job-Change key worker lease_ms now q
perform-Change (start id worker) now q a c =
    updated (claimed_by id worker) _ refl (λ j. (refl, refl, refl))
      (always _ q.jobs (start-IsSound id worker))
perform-Change (complete id worker) now q a c =
    updated (running_by id worker) (finish now) refl (λ j. (refl, refl, refl))
      (always _ q.jobs (finish-IsSound id worker now))
perform-Change (fail id worker reason) now q a c = fail_job-Change id worker reason now q c
perform-Change (retry_dead_letter id) now q a c =
    updated (failed_row id) (revive now) (after_admin_update_store id _ _) (λ j. (refl, refl, refl))
      (always _ q.jobs (revive-IsSound id now))
perform-Change (cancel_dead_letter id reason) now q a c =
    updated (failed_row id) _ (after_admin_update_store id _ _) (λ j. (refl, refl, refl))
      (always _ q.jobs (cancel-IsSound id reason))

-- Whatever operations run, in whatever order and at whatever times, a consistent table stays
-- consistent: no two rows share an identifier or both keys, identifiers stay below the next one, a
-- lease is recorded exactly on claimed and running rows, rows that may still run have attempts
-- left, dead letters have none left, and ended rows have a completion time. Every enqueue must
-- allow at least one attempt.
pub perform_all-IsConsistent :
    (ops : List (Operation × ℕ)) (q : Queue)
    → All (λ op. AllowsAttempt op.0) ops
    → IsConsistent q
    → IsConsistent (perform_all ops q)
unfolding perform_all
perform_all-IsConsistent [] q a c = c
perform_all-IsConsistent ((op, now) ∷ ops) q a c =
    perform_all-IsConsistent ops (perform op now q) a.1
      (Change-IsConsistent q _ c (perform-Change op now q a.0 c))
