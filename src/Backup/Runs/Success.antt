-- ===== src/Backup/Runs/Success.antt =====
-- When `runDatabaseBackup` of backend/src/modules/backup/backup.service.ts succeeds.
use mathlib.Core.Path.{ap, subst}
use mathlib.Core.List.{Memᴰ}
use biz_pilot_ai.Prelude.{
  none, some, length, ◌==◌, ==_iff, Bool-cases, inl, inr, select, ℕ, suc, ◌≡◌, ◌-◌, ◌*◌, ◌∙◌, refl,
  Bool, true, false, List, [], ◌∷◌, ◌++◌, All, Option-cases, update_many, sym, Option,
}
use biz_pilot_ai.Effects.{Result, ok, err, resume}
use biz_pilot_ai.Backup.Topology.{FkEdge}
use biz_pilot_ai.Backup.Artifacts.{DiskOperation, IsKey, Bytes, Platform, IsSound, dump_database}
use biz_pilot_ai.Backup.Artifacts.Verify.{verify_integrity}
use biz_pilot_ai.Backup.Artifacts.Integrity.{verify_integrity-dump_database}
use biz_pilot_ai.Backup.Runs.{
  BackupRun, succeeded, is_running, has_run_id, mark_pruned, prune, cleanup_old_backups,
  eligible_for_pruning, Surroundings, guard_against_concurrent_backup, start_run, after_cleanup,
  settle_run, make_artifact, run_database_backup, backup_order, checked_key, empty_directory, reap,
}
use biz_pilot_ai.Backup.Runs.Outcome.{finished, IsKept, cleaned, cleaned-IsKept, settle_accepted}

select-none {ℓ} :
    {A : Type ℓ} (q : A → Bool) (xs : List A) → All (λ x. q x ≡ false) xs → select q xs ≡ []
select-none q [] h = refl
select-none q (x ∷ xs) h = rw h.0 (select-none q xs h.1)

-- The cleanup returns where every directory can be deleted.
prune-ok :
    (deletes : ℕ → Bool) (now : ℕ)
    → ((directory : ℕ) → deletes directory ≡ true)
    → (rs runs : List BackupRun) (n : ℕ) → (m : ℕ) × ((prune deletes now rs n runs).0 ≡ ok m)
unfolding prune
prune-ok deletes now all [] runs n = (n, refl)
prune-ok deletes now all (r ∷ rs) runs n = elim (Option-cases r.file_path) [
  | inl e ↦ rw (e, prune) (prune-ok deletes now all rs runs n)
  | inr (path, e) ↦
      rw (e, all path, prune)
        (prune-ok deletes now all rs (update_many (has_run_id r.id) (mark_pruned now) runs) (suc n))
]

cleaned-ok :
    (around : Surroundings) (id now : ℕ)
    → ((directory : ℕ) → around.deletes directory ≡ true)
    → (encrypted : Bool) (runs : List BackupRun)
    → (n : ℕ) × ((cleaned around id now encrypted runs).0 ≡ ok n)
unfolding cleaned cleanup_old_backups
cleaned-ok around id now all encrypted runs =
    let rows = finished around id now encrypted runs in
    prune-ok around.deletes now all
      (eligible_for_pruning around.min_retained (now - around.retention_days * 24 * 60 * 60 * 1000)
        rows)
      rows 0

guard_idle :
    (stale_minutes now : ℕ) (runs : List BackupRun)
    → All (λ r. is_running r.status ≡ false) runs
    → guard_against_concurrent_backup stale_minutes now runs ≡ (ok tt, runs)
unfolding guard_against_concurrent_backup reap
guard_idle stale_minutes now runs idle =
    ap (λ found. reap (now - stale_minutes * 60000) now found runs)
      (select-none (λ r. is_running r.status) runs idle)

abbrev ReturnsKey : Result (Option Bytes) → Type 0
ReturnsKey (ok key) = IsKey key
ReturnsKey (err e) = Unit

checked_key-ReturnsKey : (set : Option Bytes) → ReturnsKey (checked_key set)
unfolding checked_key IsKey
checked_key-ReturnsKey none = tt
checked_key-ReturnsKey (some key) = elim (Bool-cases (length key == 32)) [
  | inl sized ↦ rw sized ((==_iff (length key) 32).0 sized)
  | inr other ↦ rw other tt
]

module _ {Row : Type 0} (p : Platform Row) (around : Surroundings) (id now : ℕ) where
  make_artifact_lem :
      {tables order : List ℕ} {edges broken : List FkEdge} {key : Option Bytes}
      → around.schema ≡ ok (tables, edges)
      → backup_order tables edges ≡ ok (order, broken)
      → checked_key around.encryption_key ≡ ok key
      → make_artifact p around id now
        ≡ (resume
            (dump_database p id order broken key now (empty_directory around.permits))
            (λ dumped. verify_integrity p)).0
  unfolding make_artifact
  make_artifact_lem e f g = rw (e, f, g, make_artifact) refl

  -- A backup is made where no run is in progress, the schema and the tables in the order that it
  -- gives can be read, that order exists, the key, if one is set, has its length, and the disk
  -- refuses nothing, neither the files of this run, nor their measuring, nor the deletion of old
  -- ones: the run returns, and it has a row that succeeded and names the files.
  pub run_database_backup_succeeds :
      {tables order : List ℕ} {edges broken : List FkEdge} {key : Option Bytes}
      (runs : List BackupRun)
      → IsSound p
      → around.schema ≡ ok (tables, edges)
      → backup_order tables edges ≡ ok (order, broken)
      → checked_key around.encryption_key ≡ ok key
      → ((o : DiskOperation) → around.permits o ≡ true)
      → around.size ≡ ok tt
      → ((directory : ℕ) → around.deletes directory ≡ true)
      → All (λ t. (rows : List Row) × (p.select_all t ≡ some rows)) order
      → All (λ r. is_running r.status ≡ false) runs
      → ((run_database_backup p around id now runs).0 ≡ ok tt)
        × ((r : BackupRun) × Memᴰ r (run_database_backup p around id now runs).1
            × (r.id ≡ id)
            × (r.status ≡ succeeded)
            × (r.file_path ≡ some id))
  unfolding run_database_backup cleaned IsKept
  run_database_backup_succeeds {order = order} {broken = broken} {key = key} runs sound schema
        ordered keyed free sized deletes selects idle =
      let start = empty_directory around.permits in
      let (manifest, (total, (d', (verdict, dumped, same, checked, about, accepted)))) =
        verify_integrity-dump_database p sound id order broken key now start free
          (subst ReturnsKey keyed (checked_key-ReturnsKey around.encryption_key)) selects in
      let made : make_artifact p around id now ≡ ok verdict =
        make_artifact_lem schema ordered keyed
        ∙ (ap (λ r. (resume r (λ dumped. verify_integrity p)).0) dumped ∙ ap (λ r. r.0) checked) in
      let ended : run_database_backup p around id now runs
          ≡ after_cleanup id now (cleaned around id now verdict.manifest.encrypted runs) =
        ap
          (λ g. resume g (λ _ rs.
            settle_run around id (make_artifact p around id now) now (rs ++ start_run id now ∷ [])))
          (guard_idle around.stale_minutes now runs idle)
        ∙ (ap (λ o. settle_run around id o now (runs ++ start_run id now ∷ [])) made
            ∙ settle_accepted around id now verdict runs accepted sized) in
      subst
        (λ out.
          (out.0 ≡ ok tt)
          × ((r : BackupRun) × Memᴰ r out.1
              × (r.id ≡ id)
              × (r.status ≡ succeeded)
              × (r.file_path ≡ some id)))
        (sym ended)
        (go (cleaned around id now verdict.manifest.encrypted runs)
          (cleaned-ok around id now deletes verdict.manifest.encrypted runs)
          (cleaned-IsKept around id now verdict.manifest.encrypted runs))
    where
      go :
          (out : Result ℕ × List BackupRun)
          → (n : ℕ) × (out.0 ≡ ok n)
          → (r : BackupRun) × Memᴰ r out.1 × IsKept id r
          → ((after_cleanup id now out).0 ≡ ok tt)
            × ((r : BackupRun) × Memᴰ r (after_cleanup id now out).1
                × (r.id ≡ id)
                × (r.status ≡ succeeded)
                × (r.file_path ≡ some id))
      go (ok n, rs) fine (r, m, (known, done, path)) = (refl, (r, m, known, done, path))
      go (err e, rs) (n, e') kept = cc
