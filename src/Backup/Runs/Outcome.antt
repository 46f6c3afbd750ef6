-- ===== src/Backup/Runs/Outcome.antt =====
-- How `runDatabaseBackup` of backend/src/modules/backup/backup.service.ts ends.
use mathlib.Core.Path.{ap, subst}
use mathlib.Core.List.{Memᴰ}
use biz_pilot_ai.Prelude.{
  mem-update_many, mem-append_last, mem-update_hit, ℕ, suc, ◌≡◌, ◌-◌, ◌*◌, refl, ◌⊎◌, inl, inr,
  Bool, true, List, [], ◌∷◌, ◌++◌, Bool-cases, Option-cases, update_many, ==_refl, ==_iff, if_false,
  sym, Option, none, some,
}
use biz_pilot_ai.Errors.{plain_fault, Thrown}
use biz_pilot_ai.Effects.{Result, ok, err, resume}
use biz_pilot_ai.Backup.Artifacts.{Platform}
use biz_pilot_ai.Backup.Artifacts.Verify.{Verdict}
use biz_pilot_ai.Backup.Runs.{
  BackupRun, succeeded, failed, corrupt, is_running, has_run_id, mark_pruned, prune,
  cleanup_old_backups, eligible_for_pruning, Surroundings, guard_against_concurrent_backup,
  start_run, succeed, finish_run, fail_if_running, mark_corrupt, abandon, after_cleanup,
  note_restore, note_upload, settle_run, make_artifact, run_database_backup,
}

-- A backup that succeeded, with its files.
unfoldable pub IsKept : ℕ → BackupRun → Type 0
IsKept id r = (r.id ≡ id) × (r.status ≡ succeeded) × (r.file_path ≡ some id)

prune-IsKept :
    (deletes : ℕ → Bool) (id now : ℕ) (rs runs : List BackupRun) (n : ℕ)
    → (r : BackupRun) × Memᴰ r runs × IsKept id r
    → (r : BackupRun) × Memᴰ r (prune deletes now rs n runs).1 × IsKept id r
unfolding prune IsKept
prune-IsKept deletes id now [] runs n h = h
prune-IsKept deletes id now (s ∷ ss) runs n (r, m, kept) = elim (Option-cases s.file_path) [
  | inl e ↦ rw (e, prune) (prune-IsKept deletes id now ss runs n (r, m, kept))
  | inr (path, e) ↦ elim (Bool-cases (deletes path)) [
    | inr stuck ↦ rw (e, stuck, prune) (r, m, kept)
    | inl gone ↦
        rw (e, gone, prune)
          (prune-IsKept deletes id now ss (update_many (has_run_id s.id) (mark_pruned now) runs)
            (suc n)
            (elim (Bool-cases (has_run_id s.id r)) [
              | inl hit ↦ (
                mark_pruned now r,
                mem-update_hit (has_run_id s.id) (mark_pruned now) runs m hit,
                kept,
              )
              | inr miss ↦
                  (r, mem-update_many (has_run_id s.id) (mark_pruned now) runs m miss, kept)
            ]))
  ]
]

module _ (around : Surroundings) (id now : ℕ) where
  finish_run-IsKept :
      (encrypted : Bool) → IsKept id (finish_run around encrypted now (start_run id now))
  unfolding IsKept
  finish_run-IsKept encrypted = go around.restore around.upload
    where
      go :
          (restored : Result (List ℕ)) (uploaded : Option (Result (Unit {0})))
          → IsKept id (
              note_restore restored
                (note_upload uploaded (succeed encrypted now (start_run id now))))
      go (ok []) none = (refl, refl, refl)
      go (ok []) (some (ok _)) = (refl, refl, refl)
      go (ok []) (some (err _)) = (refl, refl, refl)
      go (ok (m ∷ ms)) none = (refl, refl, refl)
      go (ok (m ∷ ms)) (some (ok _)) = (refl, refl, refl)
      go (ok (m ∷ ms)) (some (err _)) = (refl, refl, refl)
      go (err _) none = (refl, refl, refl)
      go (err _) (some (ok _)) = (refl, refl, refl)
      go (err _) (some (err _)) = (refl, refl, refl)

  -- A run that has ended: it returned and the backup is kept, or it threw and the row says so, or it
  -- threw in the cleanup of old backups, and the backup is kept.
  pub HasEnded : Result (Unit {0}) × List BackupRun → Type 0
  HasEnded out =
      (r : BackupRun) × Memᴰ r out.1
      × (((out.0 ≡ ok tt) × (r.id ≡ id) × (r.status ≡ succeeded) × (r.file_path ≡ some id))
          ⊎ ((e : Thrown) × (out.0 ≡ err e)
              × (r.id ≡ id)
              × ((r.status ≡ failed)
                  ⊎ ((r.status ≡ corrupt)
                      ⊎ ((r.status ≡ succeeded)
                          × (r.file_path ≡ some id)
                          × ((runs : List BackupRun) × ((cleanup_old_backups around.deletes
                                  around.retention_days around.min_retained now runs).0
                                ≡ err e)))))))

  unfoldable pub finished : Bool → List BackupRun → List BackupRun
  finished encrypted runs =
      update_many (has_run_id id) (finish_run around encrypted now) (runs ++ start_run id now ∷ [])

  unfoldable pub cleaned : Bool → List BackupRun → Result ℕ × List BackupRun
  cleaned encrypted runs =
      cleanup_old_backups around.deletes around.retention_days around.min_retained now
        (finished encrypted runs)

  pub cleaned-IsKept :
      (encrypted : Bool) (runs : List BackupRun)
      → (r : BackupRun) × Memᴰ r (cleaned encrypted runs).1 × IsKept id r
  unfolding cleaned finished cleanup_old_backups
  cleaned-IsKept encrypted runs =
      prune-IsKept around.deletes id now
        (eligible_for_pruning around.min_retained
          (now - around.retention_days * 24 * 60 * 60 * 1000) (finished encrypted runs))
        (finished encrypted runs) 0
        (
          finish_run around encrypted now (start_run id now),
          mem-update_hit (has_run_id id) (finish_run around encrypted now)
              (runs ++ start_run id now ∷ []) (mem-append_last runs (start_run id now))
              (==_refl id),
          finish_run-IsKept encrypted,
        )

  after_cleanup-HasEnded :
      (encrypted : Bool) (runs : List BackupRun)
      → HasEnded (after_cleanup id now (cleaned encrypted runs))
  unfolding HasEnded IsKept cleaned
  after_cleanup-HasEnded encrypted runs =
      go (cleaned encrypted runs) refl (cleaned-IsKept encrypted runs)
    where
      go :
          (out : Result ℕ × List BackupRun)
          → cleaned encrypted runs ≡ out
          → (r : BackupRun) × Memᴰ r out.1 × IsKept id r
          → HasEnded (after_cleanup id now out)
      go (ok n, rs) same (r, m, (known, done, path)) = (r, m, inl (refl, known, done, path))
      go (err e, rs) same (r, m, (known, done, path)) =
          let untouched : fail_if_running now r ≡ r =
            if_false (is_running r.status) (abandon now r) r (ap is_running done) in
          (
            r,
            subst (λ z. Memᴰ z (update_many (has_run_id id) (fail_if_running now) rs)) untouched
                (mem-update_hit (has_run_id id) (fail_if_running now) rs m
                  ((==_iff r.id id).1 known)),
            inr (
              e,
              refl,
              known,
              inr (inr (done, path, (finished encrypted runs, ap (λ out. out.0) same))),
            ),
          )

  pub settle_accepted :
      (verdict : Verdict) (runs : List BackupRun)
      → verdict.is_ok ≡ true
      → around.size ≡ ok tt
      → settle_run around id (ok verdict) now (runs ++ start_run id now ∷ [])
        ≡ after_cleanup id now (cleaned verdict.manifest.encrypted runs)
  unfolding settle_run cleaned finished
  settle_accepted verdict runs e sized = rw (e, sized, settle_run) refl

  threw :
      (e : Thrown) (runs : List BackupRun)
      → HasEnded
          (err e, update_many (has_run_id id) (fail_if_running now) (runs ++ start_run id now ∷ []))
  unfolding HasEnded
  threw e runs = (
    fail_if_running now (start_run id now),
    mem-update_hit (has_run_id id) (fail_if_running now) (runs ++ start_run id now ∷ [])
        (mem-append_last runs (start_run id now)) (==_refl id),
    inr (e, refl, refl, inl refl),
  )

  corrupted :
      (runs : List BackupRun)
      → HasEnded (
        err plain_fault,
        update_many
            (has_run_id id)
            (fail_if_running now)
            (update_many (has_run_id id) (mark_corrupt now) (runs ++ start_run id now ∷ [])),
      )
  unfolding HasEnded
  corrupted runs = (
    fail_if_running now (mark_corrupt now (start_run id now)),
    mem-update_hit (has_run_id id) (fail_if_running now)
        (update_many (has_run_id id) (mark_corrupt now) (runs ++ start_run id now ∷ []))
        (mem-update_hit (has_run_id id) (mark_corrupt now) (runs ++ start_run id now ∷ [])
          (mem-append_last runs (start_run id now)) (==_refl id))
        (==_refl id),
    inr (plain_fault, refl, refl, inr (inl refl)),
  )

  settle_run_lem :
      (outcome : Result Verdict) (runs : List BackupRun)
      → HasEnded (settle_run around id outcome now (runs ++ start_run id now ∷ []))
  unfolding settle_run HasEnded
  settle_run_lem (err e) runs = threw e runs
  settle_run_lem (ok verdict) runs = elim (Bool-cases verdict.is_ok) [
    | inl e ↦ elim (Result-cases around.size) [
      | inl sized ↦
          subst HasEnded (sym (settle_accepted verdict runs e sized))
            (after_cleanup-HasEnded verdict.manifest.encrypted runs)
      | inr (e', broken) ↦ rw (e, broken, settle_run) (threw e' runs)
    ]
    | inr e ↦ rw (e, settle_run) (corrupted runs)
  ]
    where
      Result-cases : (r : Result (Unit {0})) → (r ≡ ok tt) ⊎ ((e : Thrown) × (r ≡ err e))
      Result-cases (ok _) = inl refl
      Result-cases (err e) = inr (e, refl)

-- However a run goes, as long as the database carries out its statements, it ends. Either the guard
-- throws, and nothing but the guard's own updates is written. Or the run has a row, which succeeded
-- and names the files if the run returned. If the run threw, the row failed or is corrupt, or the
-- cleanup of old backups threw, and the row succeeded and names the files.
pub run_database_backup_ends :
    {Row : Type 0} (p : Platform Row) (around : Surroundings) (id now : ℕ) (runs : List BackupRun)
    → ((e : Thrown) × ((guard_against_concurrent_backup around.stale_minutes now runs).0 ≡ err e)
        × (run_database_backup p around id now runs
            ≡ (err e, (guard_against_concurrent_backup around.stale_minutes now runs).1)))
      ⊎ HasEnded around id now (run_database_backup p around id now runs)
unfolding run_database_backup
run_database_backup_ends p around id now runs =
    go (guard_against_concurrent_backup around.stale_minutes now runs)
  where
    go :
        (guarded : Result (Unit {0}) × List BackupRun)
        → ((e : Thrown) × (guarded.0 ≡ err e)
            × (resume guarded (λ _ rs.
                  settle_run around id
                    (make_artifact p around id now)
                    now
                    (rs ++ start_run id now ∷ []))
                ≡ (err e, guarded.1)))
          ⊎ HasEnded around id now (
              resume guarded (λ _ rs.
                settle_run around id
                  (make_artifact p around id now)
                  now
                  (rs ++ start_run id now ∷ [])))
    go (ok tt, rs) = inr (settle_run_lem around id now (make_artifact p around id now) rs)
    go (err e, rs) = inl (e, refl, refl)
