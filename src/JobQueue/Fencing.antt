-- ===== src/JobQueue/Fencing.antt =====
-- Reports of workers that do not own a job.
use Prim.Native.Nat.{ℕ, ◌+◌}
use mathlib.Core.Option.{some-injective}
use mathlib.Core.Path.{subst}
use biz_pilot_ai.Prelude.{
  ◌≡◌, ◌≢◌, refl, sym, ap, true, false, Option, none, some, arith, All, All-map, inl, inr,
  Bool-cases, update_many, Apart, find_first, opt_eq, find_first_unique, count-none, ◌==◌,
  update_many-none, find_first-none,
}
use biz_pilot_ai.JobQueue.{
  Job, Queue, claim_job, start_job, complete_job, fail_job, has_id, running_by, claimed_by, Reason,
  take_lease, claimable_row,
}
use biz_pilot_ai.JobQueue.Steps.{claim_job-Change}
use biz_pilot_ai.JobQueue.Claims.{claim_job-outcome, find_claimed, claimable_of_due}
use biz_pilot_ai.JobQueue.Rows.{IsConsistent, Distinguishable, Change-IsConsistent}

not_owner :
    (id worker : ℕ) (j : Job)
    → (j.id ≡ id → j.lease_owner ≢ some worker)
    → (claimed_by id worker j ≡ false) × (running_by id worker j ≡ false)
not_owner id worker j h = elim (Bool-cases (j.id == id)) [
  | inl e ↦
      let no : opt_eq j.lease_owner worker ≡ false =
        not_opt_eq j.lease_owner worker (h (ground arith)) in
      ground arith
  | inr e ↦ ground arith
]
  where
    not_opt_eq : (o : Option ℕ) (w : ℕ) → o ≢ some w → opt_eq o w ≡ false
    not_opt_eq none w n = refl
    not_opt_eq (some v) w n = ground arith

-- A worker that does not own a job is refused whatever it reports of it, and nothing changes: its
-- start and its completion return false, and its failure returns null.
pub stale_worker_refused :
    (id worker : ℕ) (reason : Reason) (now : ℕ) (q : Queue)
    → All (λ j. j.id ≡ id → j.lease_owner ≢ some worker) q.jobs
    → (start_job id worker q ≡ (false, q))
      × (complete_job id worker now q ≡ (false, q))
      × (fail_job id worker reason now q ≡ (none, q))
unfolding start_job complete_job fail_job
stale_worker_refused id worker reason now q h =
    let idle_claims =
      All-map _ (λ j. claimed_by id worker j ≡ false) q.jobs (λ j n. (not_owner id worker j n).0)
        h in
    let idle_runs =
      All-map _ (λ j. running_by id worker j ≡ false) q.jobs (λ j n. (not_owner id worker j n).1)
        h in
    (
      rw (count-none _ q.jobs idle_claims, update_many-none _ _ q.jobs idle_claims) refl,
      rw (count-none _ q.jobs idle_runs, update_many-none _ _ q.jobs idle_runs) refl,
      rw (find_first-none _ q.jobs idle_runs, fail_job),
    )

apart_has_id :
    (id : ℕ) (j k : Job) → Distinguishable j k → has_id id j ≡ true → has_id id k ≡ true → ⊥
apart_has_id id j k h e f = ground arith

-- What a claim writes.
abbrev claimed_queue : ℕ → ℕ → ℕ → Job → Queue → Queue
claimed_queue worker lease_ms now c q = record q {
  jobs = update_many (claimable_row c.id now) (take_lease worker (now + lease_ms)) q.jobs;
}

claimed_queue-owner :
    (key worker other lease_ms now : ℕ) (c : Job) (q : Queue)
    → IsConsistent q
    → claim_job key worker lease_ms now q
      ≡ (some (take_lease worker (now + lease_ms) c), claimed_queue worker lease_ms now c q)
    → find_first (has_id c.id) (claimed_queue worker lease_ms now c q).jobs
      ≡ some (take_lease worker (now + lease_ms) c)
    → other ≢ worker
    → All
        (λ j. j.id ≡ c.id → j.lease_owner ≢ some other)
        (claimed_queue worker lease_ms now c q).jobs
claimed_queue-owner key worker other lease_ms now c q consistent e found distinct =
    let changed = claim_job-Change key worker lease_ms now q in
    let after = Change-IsConsistent q _ consistent changed in
    let unique : Apart Distinguishable (claimed_queue worker lease_ms now c q).jobs =
      rw e at after.unique in
    All-map (λ j. has_id c.id j ≡ true → j ≡ take_lease worker (now + lease_ms) c)
      (λ j. j.id ≡ c.id → j.lease_owner ≢ some other) _
      (λ j same i o. owned j (same (ground arith)) o)
      (find_first_unique Distinguishable (has_id c.id) _ (apart_has_id c.id) unique found)
  where
    owned : (j : Job) → j ≡ take_lease worker (now + lease_ms) c → j.lease_owner ≡ some other → ⊥
    owned j same o = ground (arith, ap (λ (k : Job). k.lease_owner) same)

-- In a consistent table, once a claim has returned a job, every report of another worker about that
-- job is refused and changes nothing: a worker whose lease has passed cannot start, complete or
-- fail a job that was claimed again.
pub claim_job_fences :
    (key worker other lease_ms now later : ℕ) (reason : Reason) (q : Queue) (j : Job)
    → IsConsistent q
    → (claim_job key worker lease_ms now q).0 ≡ some j
    → other ≢ worker
    → let q' = (claim_job key worker lease_ms now q).1 in
      (start_job j.id other q' ≡ (false, q'))
      × (complete_job j.id other later q' ≡ (false, q'))
      × (fail_job j.id other reason later q' ≡ (none, q'))
claim_job_fences key worker other lease_ms now later reason q j consistent taken distinct =
    elim (claim_job-outcome key worker lease_ms now q consistent) [
      | inl (e, _) ↦ let no : none ≡ some j = rw e at taken in cc
      | inr (c, first, e) ↦
          let found =
            find_claimed worker (now + lease_ms) now c q.jobs first.listed consistent.unique
              (claimable_of_due key now c first.admitted) in
          let same : take_lease worker (now + lease_ms) c ≡ j =
            some-injective _ _ (rw e at taken) in
          let i : j.id ≡ c.id = ap (λ (k : Job). k.id) (sym same) in
          let refused =
            stale_worker_refused c.id other reason later (claimed_queue worker lease_ms now c q)
              (claimed_queue-owner key worker other lease_ms now c q consistent e found distinct) in
          rw i (
            subst
              (λ (r : Option Job × Queue).
                (start_job c.id other r.1 ≡ (false, r.1))
                × (complete_job c.id other later r.1 ≡ (false, r.1))
                × (fail_job c.id other reason later r.1 ≡ (none, r.1)))
              (sym e) refused)
    ]
