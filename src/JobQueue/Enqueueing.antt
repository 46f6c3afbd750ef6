-- ===== src/JobQueue/Enqueueing.antt =====
-- What the unique keys of jobs give: backend/src/modules/scheduler/job-queue.service.ts, `enqueueJob`.
use biz_pilot_ai.Prelude.{
  ℕ, ◌+◌, true, false, ==_refl, none, some, [], ◌∷◌, ◌++◌, ◌≡◌, refl, inl, inr, Option-cases,
  find_first, find_first-append_one,
}
use biz_pilot_ai.JobQueue.{Job, Queue, EnqueueJobInput, has_keys, new_job, enqueue_job}

known :
    (input : EnqueueJobInput) (now : ℕ) (q : Queue) {j : Job}
    → find_first (has_keys input.job_key input.dedupe_key) q.jobs ≡ some j
    → enqueue_job input now q ≡ ((j, false), q)
unfolding enqueue_job
known input now q e = rw (e, enqueue_job) refl

fresh :
    (input : EnqueueJobInput) (now : ℕ) (q : Queue)
    → find_first (has_keys input.job_key input.dedupe_key) q.jobs ≡ none
    → enqueue_job input now q ≡ (
      (new_job q.next_id input now, true),
      record { jobs = q.jobs ++ new_job q.next_id input now ∷ []; next_id = q.next_id + 1 },
    )
unfolding enqueue_job
fresh input now q e = rw (e, enqueue_job) refl

-- The same piece of work is enqueued once: a second request with the same job key and dedupe key,
-- whatever its payload, limit, start and clock, returns the job that the first request returned, says
-- that it is not new, and leaves the table as it was.
pub enqueue_job_once :
    (input again : EnqueueJobInput) (now later : ℕ) (q : Queue)
    → again.job_key ≡ input.job_key
    → again.dedupe_key ≡ input.dedupe_key
    → enqueue_job again later (enqueue_job input now q).1
      ≡ (((enqueue_job input now q).0.0, false), (enqueue_job input now q).1)
enqueue_job_once input again now later q k d =
    elim (Option-cases (find_first (has_keys input.job_key input.dedupe_key) q.jobs)) [
      | inr (j, found) ↦ rw (known input now q found) (known again later q (rw (k, d) found))
      | inl missing ↦ rw (fresh input now q missing) (
          known again later _ (
            rw (k, d)
              (find_first-append_one (has_keys input.job_key input.dedupe_key) q.jobs
                (new_job q.next_id input now) missing
                (rw (==_refl input.job_key, ==_refl input.dedupe_key) refl))))
    ]
