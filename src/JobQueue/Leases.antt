-- ===== src/JobQueue/Leases.antt =====
-- What a lease protects while statements of several workers interleave.
use Prim.Native.Nat.{ℕ, ◌≤◌, ◌<◌, ◌+◌}
use biz_pilot_ai.Prelude.{
  ◌≡◌, ◌≢◌, ◌∙◌, refl, sym, Bool, true, false, some, List, [], ◌∷◌, arith, All, All-append,
  All-update_many, inl, inr, Option-cases, update_many, find_first, leb,
}
use biz_pilot_ai.JobQueue.{
  JobStatus, claimed, running, Job, Queue, claim_row, start_job, complete_job, fail_row,
  enqueue_job, EnqueueJobInput, retry_dead_letter_job, cancel_dead_letter_job, has_keys, new_job,
  record_failure, running_by, claimed_by, failed_row, Reason, claimable, claimable_row,
}
use biz_pilot_ai.JobQueue.Steps.{after_admin_update_store}

-- The statements in which the operations reach the table. The write of `failJob` carries the row
-- that was read before it, which may be out of date.
pub data Statement : Type 0 where
  insert : EnqueueJobInput → Statement
  claim_write : (id worker lease_ms : ℕ) → Statement
  start_write : (id worker : ℕ) → Statement
  complete_write : (id worker : ℕ) → Statement
  fail_write : (id worker : ℕ) → Reason → Job → Statement
  retry_write : (id : ℕ) → Statement
  cancel_write : (id reason : ℕ) → Statement

unfoldable pub execute : Statement → ℕ → Queue → Queue
execute (insert input) now q = (enqueue_job input now q).1
execute (claim_write id worker lease_ms) now q = (claim_row id worker lease_ms now q).1
execute (start_write id worker) now q = (start_job id worker q).1
execute (complete_write id worker) now q = (complete_job id worker now q).1
execute (fail_write id worker reason current) now q = (fail_row id worker reason current now q).1
execute (retry_write id) now q = (retry_dead_letter_job id now q).1
execute (cancel_write id reason) now q = (cancel_dead_letter_job id reason q).1

unfoldable pub execute_all : List (Statement × ℕ) → Queue → Queue
execute_all [] q = q
execute_all ((s, now) ∷ more) q = execute_all more (execute s now q)

-- A statement that is not the holder's own start, completion or failure.
abbrev pub IsForeign : ℕ → Statement → Type 0
IsForeign worker (start_write _ w) = w ≢ worker
IsForeign worker (complete_write _ w) = w ≢ worker
IsForeign worker (fail_write _ w _ _) = w ≢ worker
IsForeign worker _ = Unit

abbrev pub is_leased : JobStatus → Bool
is_leased claimed = true
is_leased running = true
is_leased _ = false

abbrev pub IsHeldBy : ℕ → ℕ → Job → Type 0
IsHeldBy worker until j =
    (is_leased j.status ≡ true) × (j.lease_owner ≡ some worker) × (j.lease_expires_at ≡ some until)

-- Every row with the identifier, which the table has given out, is held.
pub record Holds (id worker until : ℕ) (q : Queue) : Type 0 where
  pub issued : id < q.next_id
  pub held : All (λ j. j.id ≡ id → IsHeldBy worker until j) q.jobs

failure_id :
    (terminal : Bool) (attempts : ℕ) (reason : Reason) (now : ℕ) (j : Job)
    → (record_failure terminal attempts reason now j).id ≡ j.id
failure_id true attempts reason now j = refl
failure_id false attempts reason now j = refl

module _ (id worker until : ℕ) where
  -- A condition that a held row does not meet leaves every held row alone.
  held_update :
      (p : Job → Bool) (f : Job → Job)
      → ((j : Job) → (f j).id ≡ j.id)
      → ((j : Job) → IsHeldBy worker until j → j.id ≡ id → p j ≡ true → ⊥)
      → (js : List Job) → All (λ j. j.id ≡ id → IsHeldBy worker until j) js
      → All (λ j. j.id ≡ id → IsHeldBy worker until j) (update_many p f js)
  held_update p f ids safe js h =
      All-update_many (λ j. j.id ≡ id → IsHeldBy worker until j) p f js
        (λ j k e i. let i' : j.id ≡ id = sym (ids j) ∙ i in absurd (safe j (k i') i' e)) h

  claim_write_safe :
      (other now : ℕ) (j : Job)
      → now ≤ until
      → IsHeldBy worker until j
      → j.id ≡ id
      → claimable_row other now j ≡ true
      → ⊥
  unfolding claimable
  claim_write_safe other now j in_time h i e = ground arith

  start_write_safe :
      (other w : ℕ) (j : Job)
      → w ≢ worker
      → IsHeldBy worker until j
      → j.id ≡ id
      → claimed_by other w j ≡ true
      → ⊥
  start_write_safe other w j foreign h i e = ground arith

  end_write_safe :
      (other w : ℕ) (j : Job)
      → w ≢ worker
      → IsHeldBy worker until j
      → j.id ≡ id
      → running_by other w j ≡ true
      → ⊥
  end_write_safe other w j foreign h i e = ground arith

  admin_write_safe :
      (other : ℕ) (j : Job) → IsHeldBy worker until j → j.id ≡ id → failed_row other j ≡ true → ⊥
  admin_write_safe other j h i e = ground arith

  insert-Holds :
      (input : EnqueueJobInput) (now : ℕ) (q : Queue)
      → Holds id worker until q
      → Holds id worker until (enqueue_job input now q).1
  unfolding enqueue_job
  insert-Holds input now q h =
      elim (Option-cases (find_first (has_keys input.job_key input.dedupe_key) q.jobs)) [
        | inl e ↦
            rw (e, enqueue_job)
              (record {
                issued = omega (arith, h.issued);
                held =
                    All-append (λ j. j.id ≡ id → IsHeldBy worker until j) q.jobs
                      (new_job q.next_id input now ∷ []) h.held
                      ((λ same. absurd (omega (arith, h.issued, same))), tt);
              })
        | inr (x, e) ↦ rw (e, enqueue_job) h
      ]

  fail_write-Holds :
      (other w : ℕ) (reason : Reason) (current : Job) (now : ℕ) (q : Queue)
      → w ≢ worker
      → Holds id worker until q
      → Holds id worker until (fail_row other w reason current now q).1
  unfolding fail_row
  fail_write-Holds other w reason current now q foreign h = record {
    issued = h.issued;
    held =
        held_update (running_by other w) _
          (failure_id (leb current.max_attempts (current.attempts + 1)) (current.attempts + 1)
            reason now)
          (λ j k i e. end_write_safe other w j foreign k i e) q.jobs h.held;
  }

  execute-Holds :
      (s : Statement) (now : ℕ) (q : Queue)
      → IsForeign worker s
      → now ≤ until
      → Holds id worker until q
      → Holds id worker until (execute s now q)
  unfolding execute claim_row start_job complete_job retry_dead_letter_job cancel_dead_letter_job
  execute-Holds (insert input) now q foreign in_time h = insert-Holds input now q h
  execute-Holds (claim_write other w lease_ms) now q foreign in_time h = record {
    issued = h.issued;
    held =
        held_update (claimable_row other now) _ (λ j. refl)
          (λ j k i e. claim_write_safe other now j in_time k i e) q.jobs h.held;
  }
  execute-Holds (start_write other w) now q foreign in_time h = record {
    issued = h.issued;
    held =
        held_update (claimed_by other w) _ (λ j. refl)
          (λ j k i e. start_write_safe other w j foreign k i e) q.jobs h.held;
  }
  execute-Holds (complete_write other w) now q foreign in_time h = record {
    issued = h.issued;
    held =
        held_update (running_by other w) _ (λ j. refl)
          (λ j k i e. end_write_safe other w j foreign k i e) q.jobs h.held;
  }
  execute-Holds (fail_write other w reason current) now q foreign in_time h =
      fail_write-Holds other w reason current now q foreign h
  execute-Holds (retry_write other) now q foreign in_time h =
      rw (after_admin_update_store other _ _) (record {
        issued = h.issued;
        held =
            held_update (failed_row other) _ (λ j. refl) (λ j k i e. admin_write_safe other j k i e)
              q.jobs h.held;
      })
  execute-Holds (cancel_write other reason) now q foreign in_time h =
      rw (after_admin_update_store other _ _) (record {
        issued = h.issued;
        held =
            held_update (failed_row other) _ (λ j. refl) (λ j k i e. admin_write_safe other j k i e)
              q.jobs h.held;
      })

-- While a worker's lease on a job has not passed, no interleaving of statements of other workers,
-- of claims by anyone, of enqueues and of administrators takes the job away: its row still is
-- claimed or running, with that owner and that end of lease. The job's identifier is one that the
-- table has given out.
pub lease_exclusive :
    (id worker until : ℕ) (statements : List (Statement × ℕ)) (q : Queue)
    → All (λ s. IsForeign worker s.0 × (s.1 ≤ until)) statements
    → Holds id worker until q
    → Holds id worker until (execute_all statements q)
unfolding execute_all
lease_exclusive id worker until [] q safe h = h
lease_exclusive id worker until ((s, now) ∷ more) q ((foreign, in_time), safe) h =
    lease_exclusive id worker until more (execute s now q) safe
      (execute-Holds id worker until s now q foreign in_time h)
