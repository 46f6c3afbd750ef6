-- ===== src/JobQueue/Retries.antt =====
-- Backoff, and the way of a job that keeps failing to the dead letters.
use Prim.Native.Nat.{ℕ, suc, ◌≤◌, ◌<◌, ◌+◌, ◌*◌}
use native.Mathlib.Nat.{pow-suc, pow-le-pow_right, one-le-pow}
use mathlib.Core.Path.{subst}
use mathlib.Core.List.{append_assoc}
use biz_pilot_ai.Prelude.{
  sym, ◌++◌, length, length-append, min, ◌^◌, ◌≡◌, ◌∙◌, refl, ap, none, List, [], ◌∷◌, arith,
  if◌then◌else◌, leb, ◌⊎◌, inr,
}
use biz_pilot_ai.Effects.{err}
use biz_pilot_ai.Errors.{Thrown}
use biz_pilot_ai.JobQueue.{
  JobStatus, pending, retry_wait, failed, Job, Queue, JobHandler, Outcome, ran, raised,
  run_worker_tick, backoff_ms, claimable, take_lease, record_failure,
}

-- The delay before a retry never falls as attempts grow, is at least one second and at most thirty,
-- doubles from one attempt to the next as far as thirty seconds allow, and has reached them after the
-- fifth.
pub backoff_ms_lem :
    (a b : ℕ)
    → a ≤ b
    → (backoff_ms a ≤ backoff_ms b)
      × (1000 ≤ backoff_ms a)
      × (backoff_ms a ≤ 30000)
      × (backoff_ms (suc a) ≡ min (2 * backoff_ms a) 30000)
      × (backoff_ms (a + 5) ≡ 30000)
unfolding backoff_ms
backoff_ms_lem a b h = (
  omega (arith, pow-le-pow_right {n = 2} (omega arith) h),
  omega (arith, one-le-pow a 2 (omega arith)),
  omega arith,
  omega (arith, pow-suc 2 a),
  (let grown : 2 ^ 5 ≤ 2 ^ (a + 5) =
        pow-le-pow_right {n = 2} (omega arith) {i = 5} {j = a + 5} (omega arith) in
      omega (arith, grown)),
)

abbrev pub always_throws : ℕ → Thrown → List (ℕ × JobHandler)
always_throws key e = (key, λ job q. (err e, q)) ∷ []

abbrev pub alone : Job → ℕ → Queue
alone j n = record { jobs = j ∷ []; next_id = n }

abbrev pub IsWaiting : JobStatus → Type 0
IsWaiting s = (s ≡ pending) ⊎ (s ≡ retry_wait)

one_failing_tick :
    (j : Job) (n worker lease_ms now end : ℕ) (e : Thrown)
    → IsWaiting j.status
    → j.next_run_at ≤ now
    → (run_worker_tick (always_throws j.job_key e) j.job_key worker lease_ms now end (alone j n))
      ≡ (
        ran j.id (if leb j.max_attempts (j.attempts + 1) then failed else retry_wait),
        alone
            (record_failure
              (leb j.max_attempts (j.attempts + 1))
              (j.attempts + 1)
              (raised e)
              end
              (take_lease worker (now + lease_ms) j))
            n,
      )
unfolding run_worker_tick claimable
one_failing_tick j n worker lease_ms now end e w due = ground arith

-- Ticks of one worker, each with the time of its claim and the time when its failure is recorded.
pub failing_ticks : List (ℕ × ℕ) → ℕ → ℕ → ℕ → Thrown → Queue → Queue
failing_ticks [] key worker lease_ms e q = q
failing_ticks ((at, end) ∷ ts) key worker lease_ms e q =
    failing_ticks ts key worker lease_ms e
      (run_worker_tick (always_throws key e) key worker lease_ms at end q).1

-- Each claim comes when the delay is over that follows the failure before it.
unfoldable pub IsPaced : ℕ → ℕ → List (ℕ × ℕ) → Type 0
IsPaced attempts due [] = Unit
IsPaced attempts due ((at, end) ∷ ts) =
    (due ≤ at) × IsPaced (attempts + 1) (end + backoff_ms (attempts + 1)) ts

-- When the delay after the last failure is over.
unfoldable pub due_after : ℕ → ℕ → List (ℕ × ℕ) → ℕ
due_after attempts due [] = due
due_after attempts due ((at, end) ∷ ts) =
    due_after (attempts + 1) (end + backoff_ms (attempts + 1)) ts

-- The table holds one job, which differs from the given one by what failures have recorded.
pub record HasJob (key id most attempts n : ℕ) (q : Queue) : Type 0 where
  pub job : Job
  pub only : q ≡ alone job n
  pub same_key : job.job_key ≡ key
  pub same_id : job.id ≡ id
  pub same_most : job.max_attempts ≡ most
  pub counted : job.attempts ≡ attempts

pub record HasWaiting (key id most attempts n due : ℕ) (q : Queue) : Type 0 where
  pub row : HasJob key id most attempts n q
  pub waits : IsWaiting row.job.status
  pub is_due : row.job.next_run_at ≡ due

pub record HasDead (key id most attempts n : ℕ) (q : Queue) : Type 0 where
  pub row : HasJob key id most attempts n q
  pub dead : row.job.status ≡ failed
  pub freed : row.job.lease_owner ≡ none

abbrev failed_row_of : Job → ℕ → ℕ → Thrown → ℕ → ℕ → Job
failed_row_of j worker lease_ms e now end =
    record_failure (leb j.max_attempts (j.attempts + 1)) (j.attempts + 1) (raised e) end
      (take_lease worker (now + lease_ms) j)

failed_row_of-waits :
    (j : Job) (worker lease_ms now end : ℕ) (e : Thrown)
    → j.attempts + 1 < j.max_attempts
    → let j' = failed_row_of j worker lease_ms e now end in
      (j'.job_key ≡ j.job_key)
      × (j'.id ≡ j.id)
      × (j'.max_attempts ≡ j.max_attempts)
      × (j'.attempts ≡ j.attempts + 1)
      × (j'.status ≡ retry_wait)
      × (j'.next_run_at ≡ end + backoff_ms (j.attempts + 1))
failed_row_of-waits j worker lease_ms now end e h = ground arith

failed_row_of-dead :
    (j : Job) (worker lease_ms now end : ℕ) (e : Thrown)
    → j.attempts + 1 ≡ j.max_attempts
    → let j' = failed_row_of j worker lease_ms e now end in
      (j'.job_key ≡ j.job_key)
      × (j'.id ≡ j.id)
      × (j'.max_attempts ≡ j.max_attempts)
      × (j'.attempts ≡ j.attempts + 1)
      × (j'.status ≡ failed)
      × (j'.lease_owner ≡ none)
failed_row_of-dead j worker lease_ms now end e h = ground arith

module _ (key id most n worker lease_ms : ℕ) (e : Thrown) where
  tick_of :
      (a due at end : ℕ) (q : Queue) (h : HasWaiting key id most a n due q)
      → due ≤ at
      → (run_worker_tick (always_throws key e) key worker lease_ms at end q).1
        ≡ alone (failed_row_of h.row.job worker lease_ms e at end) n
  tick_of a due at end q h late =
      ap (λ (q' : Queue). (run_worker_tick (always_throws key e) key worker lease_ms at end q').1)
        h.row.only
      ∙ subst
          (λ c.
            (run_worker_tick (always_throws c e) c worker lease_ms at end (alone h.row.job n)).1
            ≡ alone (failed_row_of h.row.job worker lease_ms e at end) n)
          h.row.same_key
          (ap (λ (r : Outcome × Queue). r.1)
            (one_failing_tick h.row.job n worker lease_ms at end e h.waits
              (omega (arith, h.is_due, late))))

  waits_again :
      (a due at end : ℕ) (q : Queue)
      → a + 1 < most
      → due ≤ at
      → HasWaiting key id most a n due q
      → HasWaiting key id most
          (a + 1)
          n
          (end + backoff_ms (a + 1))
          (run_worker_tick (always_throws key e) key worker lease_ms at end q).1
  waits_again a due at end q l late h =
      let j = h.row.job in
      let (kk, ki, km, ka, ks, kd) =
        failed_row_of-waits j worker lease_ms at end e
          (omega (arith, h.row.counted, h.row.same_most)) in
      record {
        row = record {
          job = failed_row_of j worker lease_ms e at end;
          only = tick_of a due at end q h late;
          same_key = kk ∙ h.row.same_key;
          same_id = ki ∙ h.row.same_id;
          same_most = km ∙ h.row.same_most;
          counted = omega (arith, ka, h.row.counted);
        };
        waits = inr ks;
        is_due = kd ∙ ap (λ b. end + backoff_ms (b + 1)) h.row.counted;
      }

  is_dead :
      (a due at end : ℕ) (q : Queue)
      → a + 1 ≡ most
      → due ≤ at
      → HasWaiting key id most a n due q
      → HasDead key id most most n
          (run_worker_tick (always_throws key e) key worker lease_ms at end q).1
  is_dead a due at end q l late h =
      let j = h.row.job in
      let (kk, ki, km, ka, ks, kl) =
        failed_row_of-dead j worker lease_ms at end e
          (omega (arith, h.row.counted, h.row.same_most, l)) in
      record {
        row = record {
          job = failed_row_of j worker lease_ms e at end;
          only = tick_of a due at end q h late;
          same_key = kk ∙ h.row.same_key;
          same_id = ki ∙ h.row.same_id;
          same_most = km ∙ h.row.same_most;
          counted = omega (arith, ka, h.row.counted, l);
        };
        dead = ks;
        freed = kl;
      }

  still_waiting :
      (ts us : List (ℕ × ℕ)) (a due : ℕ) (q : Queue)
      → a + length ts < most
      → IsPaced a due (ts ++ us)
      → HasWaiting key id most a n due q
      → HasWaiting key id most
          (a + length ts)
          n
          (due_after a due ts)
          (failing_ticks ts key worker lease_ms e q)
        × IsPaced (a + length ts) (due_after a due ts) us
  unfolding failing_ticks IsPaced due_after
  still_waiting [] us a due q l paced h =
      subst (λ b. HasWaiting key id most b n due q × IsPaced b due us) (omega arith) (h, paced)
  still_waiting ((at, end) ∷ ts) us a due q l (late, paced) h =
      let q' = (run_worker_tick (always_throws key e) key worker lease_ms at end q).1 in
      let due' = end + backoff_ms (a + 1) in
      subst
        (λ b.
          HasWaiting key id most b n (due_after (a + 1) due' ts)
            (failing_ticks ts key worker lease_ms e q')
          × IsPaced b (due_after (a + 1) due' ts) us)
        (omega arith)
        (still_waiting ts us (a + 1) due' q' (omega (arith, l)) paced
          (waits_again a due at end q (omega (arith, l)) late h))

failing_ticks-append :
    (ts us : List (ℕ × ℕ)) (key worker lease_ms : ℕ) (e : Thrown) (q : Queue)
    → failing_ticks (ts ++ us) key worker lease_ms e q
      ≡ failing_ticks us key worker lease_ms e (failing_ticks ts key worker lease_ms e q)
unfolding failing_ticks
failing_ticks-append [] us key worker lease_ms e q = refl
failing_ticks-append ((at, end) ∷ ts) us key worker lease_ms e q =
    failing_ticks-append ts us key worker lease_ms e
      (run_worker_tick (always_throws key e) key worker lease_ms at end q).1

-- A waiting job whose handler always throws is alone in the table, and one worker's ticks claim it
-- when it is due: at first as its row says, and after a failure when the backoff for its number of
-- attempts, counted from the clock that recorded the failure, is over. After some ticks, fewer than
-- the attempts it has left, it still waits, with as many attempts more and due when that
-- backoff is over. After as many ticks as it has attempts left it is a dead letter, with all its
-- attempts used and no lease.
pub dead_letter_after :
    (j : Job) (n worker lease_ms : ℕ) (ts us : List (ℕ × ℕ)) (at end : ℕ) (e : Thrown)
    → IsWaiting j.status
    → j.attempts + length (ts ++ us) + 1 ≡ j.max_attempts
    → IsPaced j.attempts j.next_run_at ((ts ++ us) ++ (at, end) ∷ [])
    → HasWaiting j.job_key j.id j.max_attempts
        (j.attempts + length ts)
        n
        (due_after j.attempts j.next_run_at ts)
        (failing_ticks ts j.job_key worker lease_ms e (alone j n))
      × HasDead j.job_key j.id j.max_attempts j.max_attempts n
          (failing_ticks ((ts ++ us) ++ (at, end) ∷ []) j.job_key worker lease_ms e (alone j n))
unfolding failing_ticks IsPaced
dead_letter_after j n worker lease_ms ts us at end e w enough paced =
    let start : HasWaiting j.job_key j.id j.max_attempts j.attempts n j.next_run_at (alone j n) =
      record {
        row = record {
          job = j;
          only = refl;
          same_key = refl;
          same_id = refl;
          same_most = refl;
          counted = refl;
        };
        waits = w;
        is_due = refl;
      } in
    let (waiting, _) =
      still_waiting j.job_key j.id j.max_attempts n worker lease_ms e ts (us ++ (at, end) ∷ [])
        j.attempts j.next_run_at (alone j n) (omega (arith, enough, length-append ts us))
        (subst (λ xs. IsPaced j.attempts j.next_run_at xs) (append_assoc ts us ((at, end) ∷ []))
          paced)
        start in
    let (last, (late, _)) =
      still_waiting j.job_key j.id j.max_attempts n worker lease_ms e (ts ++ us) ((at, end) ∷ [])
        j.attempts j.next_run_at (alone j n) (omega (arith, enough)) paced start in
    (
      waiting,
      subst (λ q. HasDead j.job_key j.id j.max_attempts j.max_attempts n q)
          (sym (
            failing_ticks-append (ts ++ us) ((at, end) ∷ []) j.job_key worker lease_ms e
              (alone j n)))
          (is_dead j.job_key j.id j.max_attempts n worker lease_ms e
            (j.attempts + length (ts ++ us)) (due_after j.attempts j.next_run_at (ts ++ us)) at end
            (failing_ticks (ts ++ us) j.job_key worker lease_ms e (alone j n)) enough late last),
    )
