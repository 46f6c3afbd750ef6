-- ===== src/Examples/Backups.antt =====
-- Concrete backups: backend/src/modules/backup.
use mathlib.Core.List.{Memᴰ}
use biz_pilot_ai.Prelude.{
  select, ℕ, ◌≡◌, ◌≤◌, ◌-◌, ◌*◌, ◌↔◌, refl, true, false, ltb, List, [], ◌∷◌, none, some, Option,
  map, All, length, take, ◌⊎◌,
}
use biz_pilot_ai.Errors.{plain_fault, Thrown}
use biz_pilot_ai.Effects.{ok, err}
use biz_pilot_ai.Backup.Topology.{FkEdge, deps_meet, topological_sort, break_cycles, max_rounds}
use biz_pilot_ai.Backup.Topology.Insertion.{IsInsertionOrder}
use biz_pilot_ai.Backup.Topology.Deadlock.{IsDeadlock}
use biz_pilot_ai.Backup.Topology.Order.{topological_sort_lem}
use biz_pilot_ai.Backup.Topology.Breaking.{IsBroken, break_cycles_lem}
use biz_pilot_ai.Backup.Artifacts.{
  Bytes, BackupManifest, Directory, TableMeta, entry_of, manifest_json, table_file, dump_database,
  IsKey, is_some, write_file,
}
use biz_pilot_ai.Backup.Artifacts.Verify.{Verdict, read_manifest, verify_integrity}
use biz_pilot_ai.Backup.Artifacts.Rows.{read_table_rows}
use biz_pilot_ai.Backup.Artifacts.Integrity.{IsIntact, verify_integrity_iff}
use biz_pilot_ai.Backup.Artifacts.Reading.{read_table_rows-dump_database}
use biz_pilot_ai.Backup.Runs.{
  BackupRun, succeeded, failed, is_running, is_live, latest_first, guard_against_concurrent_backup,
  cleanup_old_backups, Surroundings, run_database_backup, empty_directory, start_run, backup_order,
  checked_key,
}
use biz_pilot_ai.Backup.Runs.Guard.{guard_against_concurrent_backup_lem}
use biz_pilot_ai.Backup.Runs.Retention.{cleanup_old_backups_lem}
use biz_pilot_ai.Backup.Runs.Outcome.{HasEnded, run_database_backup_ends}
use biz_pilot_ai.Backup.Runs.Success.{run_database_backup_succeeds}
use biz_pilot_ai.Examples.Codec.{plain_platform, plain_platform-IsSound}

abbrev members_of_teams : FkEdge
members_of_teams = record { table = 1; column = 1; depends_on = 2; nullable = false }

abbrev lead_of_team : FkEdge
lead_of_team = record { table = 2; column = 1; depends_on = 1; nullable = true }

abbrev tables : List ℕ
tables = 1 ∷ 2 ∷ []

sorted : topological_sort tables (members_of_teams ∷ []) ≡ ok (2 ∷ 1 ∷ [])
unfolding topological_sort deps_meet
sorted = refl

cyclic : topological_sort tables (members_of_teams ∷ lead_of_team ∷ []) ≡ err plain_fault
unfolding topological_sort deps_meet
cyclic = refl

broken_once :
    break_cycles tables (members_of_teams ∷ lead_of_team ∷ [])
    ≡ ok (members_of_teams ∷ [], lead_of_team ∷ [])
unfolding break_cycles deps_meet
broken_once = refl

topological_sort_lem_example :
    ((order : List ℕ) × (topological_sort tables (members_of_teams ∷ []) ≡ ok order)
      × IsInsertionOrder tables (members_of_teams ∷ []) order)
    ⊎ ((topological_sort tables (members_of_teams ∷ []) ≡ err plain_fault)
        × ((stuck : List ℕ) × IsDeadlock tables (members_of_teams ∷ []) stuck)
        × ((order : List ℕ) → ¬ IsInsertionOrder tables (members_of_teams ∷ []) order))
topological_sort_lem_example = topological_sort_lem tables (members_of_teams ∷ [])

break_cycles_lem_example :
    IsBroken tables
      (members_of_teams ∷ lead_of_team ∷ [])
      max_rounds
      (break_cycles tables (members_of_teams ∷ lead_of_team ∷ []))
break_cycles_lem_example = break_cycles_lem tables (members_of_teams ∷ lead_of_team ∷ [])

abbrev key : Option Bytes
key = some (plain_platform.random_bytes 32 0)

abbrev manifest : BackupManifest
manifest = record {
  run_id = 9;
  created_at = 50;
  order = 1 ∷ [];
  broken_edges = [];
  tables = (1, record { row_count = 1; checksum = 12; file_name = table_file 1 false }) ∷ [];
  encrypted = false;
}

abbrev blank : Directory
blank = empty_directory (λ o. true)

abbrev written : Directory
written =
    (write_file manifest_json (plain_platform.print_manifest manifest)
      (write_file (table_file 1 false) (7 ∷ 5 ∷ []) blank).1).1

verify_integrity_iff_example :
    (verdict : Verdict) × (verify_integrity plain_platform written ≡ (ok verdict, written))
    × (verdict.manifest ≡ manifest)
    × ((verdict.is_ok ≡ true) ↔ All (IsIntact plain_platform written manifest) (1 ∷ []))
unfolding read_manifest write_file
verify_integrity_iff_example = verify_integrity_iff plain_platform written manifest refl

read_table_rows-dump_database_example :
    (m : BackupManifest) × ((total : ℕ) × ((d : Directory) × (dump_database plain_platform 9 tables
            [] key 50 blank
          ≡ (ok (m, total), d))
        × All
            (λ t.
              (entry : TableMeta) × ((rows : List ℕ) × (entry_of t m.tables ≡ some entry)
                × (plain_platform.select_all t ≡ some rows)
                × (entry.row_count ≡ length rows)
                × (read_table_rows plain_platform entry.file_name (is_some key) key d
                    ≡ (ok (map plain_platform.in_json rows), d))))
            tables))
unfolding IsKey
read_table_rows-dump_database_example =
    read_table_rows-dump_database plain_platform plain_platform-IsSound 9 tables [] key 50 blank
      (λ o. refl) refl ((5 ∷ 6 ∷ [], refl), ((7 ∷ [], refl), tt))

abbrev crashed : BackupRun
crashed = start_run 3 1000

abbrev kept : BackupRun
kept = record (start_run 4 2000) { status = succeeded; file_path = some 4 }

abbrev older : BackupRun
older = record (start_run 5 1500) { status = succeeded; file_path = some 5 }

abbrev history : List BackupRun
history = older ∷ crashed ∷ kept ∷ []

reaped :
    guard_against_concurrent_backup 1 70000 history
    ≡ (ok tt, older ∷ record crashed { status = failed; completed_at = some 70000 } ∷ kept ∷ [])
unfolding guard_against_concurrent_backup
reaped = refl

guard_against_concurrent_backup_lem_example :
    ((after : List BackupRun) × (guard_against_concurrent_backup 1 70000 history ≡ (ok tt, after))
      × All (λ r. is_running r.status ≡ false) after
      × All
          (λ r.
            ((is_running r.status ≡ true) × (ltb r.started_at (70000 - 1 * 60000) ≡ true))
            ⊎ ((is_running r.status ≡ false) × Memᴰ r after))
          history)
    ⊎ ((after : List BackupRun) × ((r : BackupRun) × (guard_against_concurrent_backup 1 70000
              history
            ≡ (err plain_fault, after))
          × Memᴰ r history
          × (is_running r.status ≡ true)
          × (ltb r.started_at (70000 - 1 * 60000) ≡ false)))
guard_against_concurrent_backup_lem_example =
    guard_against_concurrent_backup_lem 1 70000 history ((refl, (refl, tt)), ((refl, tt), (tt, tt)))

pruned :
    cleanup_old_backups (λ d. true) 1 1 86405000 history
    ≡ (ok 1, record older { pruned_at = some 86405000 } ∷ crashed ∷ kept ∷ [])
unfolding cleanup_old_backups
pruned = refl

cleanup_old_backups_lem_example :
    (length (cleanup_old_backups (λ d. true) 1 1 86405000 history).1 ≡ length history)
    × All
        (λ r. Memᴰ r (cleanup_old_backups (λ d. true) 1 1 86405000 history).1)
        (take 1 (latest_first (select is_live history)))
    × All
        (λ r.
          Memᴰ r (cleanup_old_backups (λ d. true) 1 1 86405000 history).1
          ⊎ ((is_live r ≡ true)
              × (ltb r.started_at (86405000 - 1 * 24 * 60 * 60 * 1000) ≡ true)
              × All
                  (λ k. r.started_at ≤ k.started_at)
                  (take 1 (latest_first (select is_live history)))))
        history
cleanup_old_backups_lem_example =
    cleanup_old_backups_lem (λ d. true) 1 1 86405000 history
      ((refl, (refl, tt)), ((refl, tt), (tt, tt)))

abbrev around : Surroundings
around = record {
  schema = ok (tables, members_of_teams ∷ lead_of_team ∷ []);
  encryption_key = none;
  permits = λ o. true;
  deletes = λ d. true;
  size = ok tt;
  upload = some (ok tt);
  restore = ok [];
  stale_minutes = 1;
  retention_days = 1;
  min_retained = 1;
}

run_database_backup_ends_example :
    ((e : Thrown) × ((guard_against_concurrent_backup 1 61500 history).0 ≡ err e)
      × (run_database_backup plain_platform around 6 61500 history
          ≡ (err e, (guard_against_concurrent_backup 1 61500 history).1)))
    ⊎ HasEnded around 6 61500 (run_database_backup plain_platform around 6 61500 history)
run_database_backup_ends_example = run_database_backup_ends plain_platform around 6 61500 history

run_database_backup_succeeds_example :
    ((run_database_backup plain_platform around 6 61500 (older ∷ kept ∷ [])).0 ≡ ok tt)
    × ((r : BackupRun) × Memᴰ r
          (run_database_backup plain_platform around 6 61500 (older ∷ kept ∷ [])).1
        × (r.id ≡ 6)
        × (r.status ≡ succeeded)
        × (r.file_path ≡ some 6))
unfolding backup_order checked_key deps_meet
run_database_backup_succeeds_example =
    run_database_backup_succeeds plain_platform around 6 61500 {tables = tables}
      {order = 2 ∷ 1 ∷ []} {edges = members_of_teams ∷ lead_of_team ∷ []}
      {broken = lead_of_team ∷ []} {key = none} (older ∷ kept ∷ []) plain_platform-IsSound refl refl
      refl (λ o. refl) refl (λ d. refl) ((7 ∷ [], refl), ((5 ∷ 6 ∷ [], refl), tt))
      (refl, (refl, tt))
