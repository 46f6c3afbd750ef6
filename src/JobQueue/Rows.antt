-- ===== src/JobQueue/Rows.antt =====
-- Whole operations on the queue, and what holds of every row between them.
use Prim.Native.Nat.{ℕ, ◌≤◌, ◌<◌, ◌+◌}
use biz_pilot_ai.Prelude.{
  ◌≡◌, ◌≢◌, ◌∙◌, sym, Bool, true, Option, none, List, [], ◌∷◌, ◌++◌, arith, or_else, All,
  All-append, All-update_many, inl, inr, Bool-cases, update_many, Apart, Apart-update_many,
  Apart-append_one,
}
use biz_pilot_ai.JobQueue.{
  JobStatus, claimed, running, succeeded, failed, cancelled, Reason, Job, Queue, EnqueueJobInput,
  enqueue_job, claim_job, start_job, complete_job, fail_job, retry_dead_letter_job,
  cancel_dead_letter_job,
}

pub data Operation : Type 0 where
  enqueue : EnqueueJobInput → Operation
  claim : (key worker lease_ms : ℕ) → Operation
  start : (id worker : ℕ) → Operation
  complete : (id worker : ℕ) → Operation
  fail : (id worker : ℕ) → Reason → Operation
  retry_dead_letter : (id : ℕ) → Operation
  cancel_dead_letter : (id reason : ℕ) → Operation

-- An operation at a time, its result left aside.
unfoldable pub perform : Operation → ℕ → Queue → Queue
perform (enqueue input) now q = (enqueue_job input now q).1
perform (claim key worker lease_ms) now q = (claim_job key worker lease_ms now q).1
perform (start id worker) now q = (start_job id worker q).1
perform (complete id worker) now q = (complete_job id worker now q).1
perform (fail id worker reason) now q = (fail_job id worker reason now q).1
perform (retry_dead_letter id) now q = (retry_dead_letter_job id now q).1
perform (cancel_dead_letter id reason) now q = (cancel_dead_letter_job id reason q).1

unfoldable pub perform_all : List (Operation × ℕ) → Queue → Queue
perform_all [] q = q
perform_all ((op, now) ∷ ops) q = perform_all ops (perform op now q)

abbrev pub LeaseFits : JobStatus → Option ℕ → Option ℕ → Type 0
LeaseFits claimed owner expires = (owner ≢ none) × (expires ≢ none)
LeaseFits running owner expires = (owner ≢ none) × (expires ≢ none)
LeaseFits _ owner expires = (owner ≡ none) × (expires ≡ none)

abbrev pub AttemptsFit : JobStatus → ℕ → ℕ → Type 0
AttemptsFit failed attempts most = most ≤ attempts
AttemptsFit cancelled attempts most = most ≤ attempts
AttemptsFit _ attempts most = attempts < most

abbrev pub CompletionFits : JobStatus → Option ℕ → Type 0
CompletionFits succeeded at = at ≢ none
CompletionFits failed at = at ≢ none
CompletionFits cancelled at = at ≢ none
CompletionFits _ at = Unit

-- A lease is recorded exactly on claimed and running rows, a row that may still run has attempts
-- left, a dead letter has none left, and an ended row has its time of completion.
pub record IsSound (j : Job) : Type 0 where
  pub lease : LeaseFits j.status j.lease_owner j.lease_expires_at
  pub allowed : 0 < j.max_attempts
  pub attempts : AttemptsFit j.status j.attempts j.max_attempts
  pub completion : CompletionFits j.status j.completed_at

-- No two rows share an identifier or both keys.
abbrev pub Distinguishable : Job → Job → Type 0
Distinguishable j k = (j.id ≢ k.id) × (j.job_key ≡ k.job_key → j.dedupe_key ≡ k.dedupe_key → ⊥)

pub record IsConsistent (q : Queue) : Type 0 where
  pub sound : All IsSound q.jobs
  pub unique : Apart Distinguishable q.jobs
  pub fresh : All (λ j. j.id < q.next_id) q.jobs

-- An input without `maxAttempts`, or with a positive one.
abbrev pub AllowsAttempt : Operation → Type 0
AllowsAttempt (enqueue input) = 0 < or_else input.max_attempts 5
AllowsAttempt _ = Unit

abbrev pub SameKeys : Job → Job → Type 0
SameKeys j k = (j.id ≡ k.id) × (j.job_key ≡ k.job_key) × (j.dedupe_key ≡ k.dedupe_key)

-- The three ways in which an operation changes the table.
pub data Change (q q' : Queue) : Type 0 where
  same : q' ≡ q → Change q q'
  inserted :
      (j : Job)
      → q' ≡ record q { jobs = q.jobs ++ j ∷ []; next_id = q.next_id + 1 }
      → j.id ≡ q.next_id
      → All (λ k. k.job_key ≡ j.job_key → k.dedupe_key ≡ j.dedupe_key → ⊥) q.jobs
      → IsSound j
      → Change q q'
  updated :
      (p : Job → Bool) (f : Job → Job)
      → q' ≡ record q { jobs = update_many p f q.jobs }
      → ((j : Job) → SameKeys (f j) j)
      → All (λ j. IsSound j → p j ≡ true → IsSound (f j)) q.jobs
      → Change q q'

Distinguishable-left :
    (f : Job → Job)
    → ((j : Job) → SameKeys (f j) j)
    → (j k : Job) → Distinguishable j k
    → Distinguishable (f j) k
Distinguishable-left f keys j k h =
    let (i, a, b) = keys j in ((λ e. h.0 (sym i ∙ e)), (λ d e. h.1 (sym a ∙ d) (sym b ∙ e)))

Distinguishable-right :
    (f : Job → Job)
    → ((j : Job) → SameKeys (f j) j)
    → (j k : Job) → Distinguishable j k
    → Distinguishable j (f k)
Distinguishable-right f keys j k h =
    let (i, a, b) = keys k in ((λ e. h.0 (e ∙ i)), (λ d e. h.1 (d ∙ a) (e ∙ b)))

All-updated :
    (p : Job → Bool) (f : Job → Job) (js : List Job)
    → All (λ j. IsSound j → p j ≡ true → IsSound (f j)) js
    → All IsSound js
    → All IsSound (update_many p f js)
All-updated p f [] k h = tt
All-updated p f (j ∷ js) k h = elim (Bool-cases (p j)) [
  | inl e ↦ rw e (k.0 h.0 e, All-updated p f js k.1 h.1)
  | inr e ↦ rw e (h.0, All-updated p f js k.1 h.1)
]

inserted_unique :
    (n : ℕ) (j : Job) (js : List Job)
    → j.id ≡ n
    → All (λ k. k.id < n) js
    → All (λ k. k.job_key ≡ j.job_key → k.dedupe_key ≡ j.dedupe_key → ⊥) js
    → All (λ k. Distinguishable k j) js
inserted_unique n j [] e h k = tt
inserted_unique n j (x ∷ xs) e h k =
    (((λ d. absurd (omega arith)), k.0), inserted_unique n j xs e h.1 k.1)

fresh_later : (n : ℕ) (js : List Job) → All (λ k. k.id < n) js → All (λ k. k.id < n + 1) js
fresh_later n [] h = tt
fresh_later n (x ∷ xs) h = (omega arith, fresh_later n xs h.1)

pub Change-IsConsistent : (q q' : Queue) → IsConsistent q → Change q q' → IsConsistent q'
Change-IsConsistent q q' c (same e) = rw e c
Change-IsConsistent q q' c (inserted j e i k s) = rw e (record {
  sound = All-append IsSound q.jobs (j ∷ []) c.sound (s, tt);
  unique =
      Apart-append_one Distinguishable q.jobs j (inserted_unique q.next_id j q.jobs i c.fresh k)
        c.unique;
  fresh =
      All-append (λ x. x.id < q.next_id + 1) q.jobs (j ∷ []) (fresh_later q.next_id q.jobs c.fresh)
        (omega arith, tt);
})
Change-IsConsistent q q' c (updated p f e keys k) = rw e (record {
  sound = All-updated p f q.jobs k c.sound;
  unique =
      Apart-update_many Distinguishable p f q.jobs (Distinguishable-left f keys)
        (Distinguishable-right f keys) c.unique;
  fresh =
      All-update_many (λ j. j.id < q.next_id) p f q.jobs (λ j h _. let (i, _, _) = keys j in rw i h)
        c.fresh;
})
