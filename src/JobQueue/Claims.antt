-- ===== src/JobQueue/Claims.antt =====
-- Which row a claim takes.
use Prim.Native.Nat.{ℕ, ◌≤◌, ◌+◌}
use mathlib.Core.List.{Memᴰ}
use mathlib.Core.Path.{subst}
use mathlib.Core.Bool.{false≢true}
use biz_pilot_ai.Prelude.{
  ◌≡◌, ◌∙◌, refl, sym, ap, Bool, true, false, Option, none, some, List, [], ◌∷◌, arith, All, leb,
  All-mem, All-map, inl, inr, Bool-cases, Option-cases, update_many, Apart, find_first, ◌⊎◌,
  find_first-eq-none, count, count-one, ==_refl,
}
use biz_pilot_ai.JobQueue.{
  Job, Queue, claim_row, claim_job, has_id, first_due, due_for, take_lease, claimable_row,
}
use biz_pilot_ai.JobQueue.Rows.{IsConsistent, Distinguishable}

-- A row that the condition admits, and none that it admits is due earlier.
pub record IsFirstDue (p : Job → Bool) (js : List Job) (c : Job) : Type 0 where
  pub listed : Memᴰ c js
  pub admitted : p c ≡ true
  pub earliest : All (λ k. p k ≡ true → c.next_run_at ≤ k.next_run_at) js

first_due-cases :
    (p : Job → Bool) (js : List Job)
    → ((first_due p js ≡ none) × All (λ k. p k ≡ false) js)
      ⊎ ((c : Job) × (first_due p js ≡ some c) × IsFirstDue p js c)
unfolding first_due
first_due-cases p [] = inl (refl, tt)
first_due-cases p (j ∷ js) = elim (Bool-cases (p j)) [
  | inl t ↦ elim (first_due-cases p js) [
    | inl (e, h) ↦ inr (
      j,
      rw (t, e) refl,
      record {
        listed = Memᴰ.head refl;
        admitted = t;
        earliest = (
          (λ _. omega arith),
          All-map (λ k. p k ≡ false) (λ k. p k ≡ true → j.next_run_at ≤ k.next_run_at) js
              (λ k f u. absurd (false≢true (sym f ∙ u))) h,
        );
      },
    )
    | inr (c, e, h) ↦ elim (Bool-cases (leb j.next_run_at c.next_run_at)) [
      | inl l ↦ inr (
        j,
        rw (t, e, l) refl,
        record {
          listed = Memᴰ.head refl;
          admitted = t;
          earliest = (
            (λ _. omega arith),
            All-map (λ k. p k ≡ true → c.next_run_at ≤ k.next_run_at)
                (λ k. p k ≡ true → j.next_run_at ≤ k.next_run_at) js (λ k g u. ground (arith, g u))
                h.earliest,
          );
        },
      )
      | inr g ↦ inr (
        c,
        rw (t, e, g) refl,
        record {
          listed = Memᴰ.tail h.listed;
          admitted = h.admitted;
          earliest = ((λ _. ground arith), h.earliest);
        },
      )
    ]
  ]
  | inr f ↦ elim (first_due-cases p js) [
    | inl (e, h) ↦ inl (rw f e, (f, h))
    | inr (c, e, h) ↦ inr (
      c,
      rw f e,
      record {
        listed = Memᴰ.tail h.listed;
        admitted = h.admitted;
        earliest = ((λ u. absurd (false≢true (sym f ∙ u))), h.earliest);
      },
    )
  ]
]

apart_claimable :
    (id now : ℕ) (j k : Job)
    → Distinguishable j k
    → claimable_row id now j ≡ true
    → claimable_row id now k ≡ true
    → ⊥
apart_claimable id now j k h e f = ground arith

pub claimable_of_due :
    (key now : ℕ) (c : Job) → due_for key now c ≡ true → claimable_row c.id now c ≡ true
claimable_of_due key now c e = ground arith

-- After the write of a claim, the claimed row is the one that its identifier finds.
pub find_claimed :
    (worker until now : ℕ) (c : Job) (js : List Job)
    → Memᴰ c js
    → Apart Distinguishable js
    → claimable_row c.id now c ≡ true
    → find_first (has_id c.id) (update_many (claimable_row c.id now) (take_lease worker until) js)
      ≡ some (take_lease worker until c)
find_claimed worker until now c [] m apart e = elim m [ ]
find_claimed worker until now c (j ∷ js) (Memᴰ.head same) apart e =
    subst
      (λ x.
        find_first (has_id c.id)
          (update_many (claimable_row c.id now) (take_lease worker until) (x ∷ js))
        ≡ some (take_lease worker until c))
      same (rw e (rw (==_refl c.id)))
find_claimed worker until now c (j ∷ js) (Memᴰ.tail m) apart e =
    let (other, _) = All-mem (Distinguishable j) js m apart.0 in
    let ih = find_claimed worker until now c js m apart.1 e in ground (arith, ih)

count_claimable :
    (now : ℕ) (c : Job) (js : List Job)
    → Memᴰ c js
    → Apart Distinguishable js
    → claimable_row c.id now c ≡ true
    → count (claimable_row c.id now) js ≡ 1
count_claimable now c js m apart e = elim (Option-cases (find_first (claimable_row c.id now) js)) [
  | inl missing ↦ absurd (
      false≢true (
        sym (
          All-mem (λ k. claimable_row c.id now k ≡ false) js m
            (find_first-eq-none (claimable_row c.id now) js missing))
        ∙ e))
  | inr (d, found) ↦
      count-one Distinguishable (claimable_row c.id now) js (apart_claimable c.id now) apart found
]

-- In a consistent table, a claim that no other statement interrupts takes an earliest due row of
-- its key whenever there is one: the row becomes claimed by the worker until the end of the lease,
-- and is returned as it now stands. Where no row is due, nothing is claimed and nothing changes.
pub claim_job-outcome :
    (key worker lease_ms now : ℕ) (q : Queue)
    → IsConsistent q
    → ((claim_job key worker lease_ms now q ≡ (none, q))
        × All (λ j. due_for key now j ≡ false) q.jobs)
      ⊎ ((c : Job) × IsFirstDue (due_for key now) q.jobs c
          × (claim_job key worker lease_ms now q ≡ (
            some (take_lease worker (now + lease_ms) c),
            record q {
              jobs =
                  update_many (claimable_row c.id now) (take_lease worker (now + lease_ms)) q.jobs;
            },
          )))
unfolding claim_job
claim_job-outcome key worker lease_ms now q consistent =
    elim (first_due-cases (due_for key now) q.jobs) [
      | inl (e, h) ↦ inl (rw (e, claim_job), h)
      | inr (c, e, h) ↦
          let may = claimable_of_due key now c h.admitted in
          inr (
            c,
            h,
            rw (e, claim_job, count_claimable now c q.jobs h.listed consistent.unique may)
                (ap (λ (r : Option Job). (r, (claim_row c.id worker lease_ms now q).1))
                  (find_claimed worker (now + lease_ms) now c q.jobs h.listed consistent.unique
                    may)),
          )
    ]
