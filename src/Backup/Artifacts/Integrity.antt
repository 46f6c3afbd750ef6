-- ===== src/Backup/Artifacts/Integrity.antt =====
-- What `verifyBackupIntegrity` of backend/src/modules/backup/backup-core.ts accepts.
use mathlib.Core.Path.{subst}
use mathlib.Core.Option.{none-ne-some}
use biz_pilot_ai.Prelude.{
  ℕ, ◌≡◌, ◌↔◌, refl, sym, ap, ◌∙◌, true, ◌==◌, ==_iff, if◌then◌else◌, List, [], ◌∷◌, length, Option,
  none, some, All, Bool-cases, Option-cases, inl, inr, if_true, if_false, arith,
}
use biz_pilot_ai.Errors.{plain_fault}
use biz_pilot_ai.Effects.{ok, M, resume, pure, throw, get, ◌>>=◌}
use biz_pilot_ai.Backup.Topology.{FkEdge, contains}
use biz_pilot_ai.Backup.Topology.Sets.{All-contains}
use biz_pilot_ai.Backup.Artifacts.{
  Bytes, manifest_json, table_file, TableMeta, BackupManifest, Directory, Platform, Entries,
  entry_of, IsSound, IsPermitted, IsKey, dump_database, is_some,
}
use biz_pilot_ai.Backup.Artifacts.Verify.{
  Verdict, Problem, missing_entry, unreadable, checksum_mismatch, table_problem, problems_of,
  read_manifest, verify_integrity,
}
use biz_pilot_ai.Backup.Artifacts.Files.{read_file_lem}
use biz_pilot_ai.Backup.Artifacts.Disk.{dump_database_lem, IsDumped}

none_differs {ℓ} : {A : Type ℓ} {a : A} → none ≡ some a → ⊥
none_differs {a = a} e = none-ne-some a e

module _ {Row : Type 0} (p : Platform Row) where
  -- A table whose entry names a file with the checksum that is noted.
  pub IsIntact : Directory → BackupManifest → ℕ → Type 0
  IsIntact d m t =
      (entry : TableMeta) × ((content : Bytes) × (entry_of t m.tables ≡ some entry)
        × (d.files entry.file_name ≡ some content)
        × (p.sha256 content ≡ entry.checksum))

  module _ (d : Directory) (tables : Entries) (t : ℕ) where
    problem_missing : entry_of t tables ≡ none → table_problem p d tables t ≡ some (missing_entry t)
    unfolding table_problem
    problem_missing e = rw (e, table_problem) refl

    problem_unreadable :
        {entry : TableMeta}
        → entry_of t tables ≡ some entry
        → d.files entry.file_name ≡ none
        → table_problem p d tables t ≡ some (unreadable entry.file_name)
    unfolding table_problem
    problem_unreadable e f = rw (e, f, table_problem) refl

    problem_compared :
        {entry : TableMeta} {content : Bytes}
        → entry_of t tables ≡ some entry
        → d.files entry.file_name ≡ some content
        → table_problem p d tables t ≡ (
            if p.sha256 content == entry.checksum
            then none
            else some (checksum_mismatch entry.file_name))
    unfolding table_problem
    problem_compared e f = rw (e, f, table_problem) refl

  IsIntact-when_clean :
      (d : Directory) (m : BackupManifest) (t : ℕ)
      → table_problem p d m.tables t ≡ none
      → IsIntact d m t
  unfolding IsIntact
  IsIntact-when_clean d m t clean = elim (Option-cases (entry_of t m.tables)) [
    | inl e ↦ absurd (none_differs (sym clean ∙ problem_missing d m.tables t e))
    | inr (entry, e) ↦ elim (Option-cases (d.files entry.file_name)) [
      | inl f ↦ absurd (none_differs (sym clean ∙ problem_unreadable d m.tables t e f))
      | inr (content, f) ↦ elim (Bool-cases (p.sha256 content == entry.checksum)) [
        | inl same ↦ (entry, (content, e, f, (==_iff (p.sha256 content) entry.checksum).0 same))
        | inr differs ↦
            let found : table_problem p d m.tables t ≡ some (checksum_mismatch entry.file_name) =
              problem_compared d m.tables t e f
              ∙ if_false (p.sha256 content == entry.checksum) none
                  (some (checksum_mismatch entry.file_name)) differs in
            absurd (none_differs (sym clean ∙ found))
      ]
    ]
  ]

  table_problem-IsIntact :
      (d : Directory) (m : BackupManifest) (t : ℕ)
      → IsIntact d m t
      → table_problem p d m.tables t ≡ none
  unfolding IsIntact
  table_problem-IsIntact d m t (entry, (content, e, f, same)) =
      problem_compared d m.tables t e f
      ∙ if_true (p.sha256 content == entry.checksum) none (some (checksum_mismatch entry.file_name))
          ((==_iff (p.sha256 content) entry.checksum).1 same)

  problems_clean :
      (d : Directory) (m : BackupManifest) (t : ℕ) (ts : List ℕ)
      → table_problem p d m.tables t ≡ none
      → problems_of p d m.tables (t ∷ ts) ≡ problems_of p d m.tables ts
  unfolding problems_of
  problems_clean d m t ts clean = rw (clean, problems_of) refl

  problems_found :
      (d : Directory) (m : BackupManifest) (t : ℕ) (ts : List ℕ) {problem : Problem}
      → table_problem p d m.tables t ≡ some problem
      → problems_of p d m.tables (t ∷ ts) ≡ problem ∷ problems_of p d m.tables ts
  unfolding problems_of
  problems_found d m t ts found = rw (found, problems_of) refl

  no_problems :
      (d : Directory) (m : BackupManifest) (ts : List ℕ)
      → (length (problems_of p d m.tables ts) ≡ 0) ↔ All (IsIntact d m) ts
  unfolding problems_of
  no_problems d m [] = ((λ e. tt), (λ h. refl))
  no_problems d m (t ∷ ts) = elim (Option-cases (table_problem p d m.tables t)) [
    | inl clean ↦ rw (problems_clean d m t ts clean) (
      (λ e. (IsIntact-when_clean d m t clean, (no_problems d m ts).0 e)),
      (λ h. (no_problems d m ts).1 h.1),
    )
    | inr (problem, found) ↦ rw (problems_found d m t ts found) (
      (λ e. absurd (omega arith)),
      (λ h. absurd (none_differs (sym (table_problem-IsIntact d m t h.0) ∙ found))),
    )
  ]

  -- Where the manifest can be read, the check returns, changes nothing, and accepts exactly the
  -- directories in which every table of the manifest's order has an entry, and a file of which the
  -- checksum is the one that the entry notes.
  pub verify_integrity_iff :
      (d : Directory) (m : BackupManifest)
      → read_manifest p d ≡ (ok m, d)
      → (verdict : Verdict) × (verify_integrity p d ≡ (ok verdict, d))
        × (verdict.manifest ≡ m)
        × ((verdict.is_ok ≡ true) ↔ All (IsIntact d m) m.order)
  unfolding verify_integrity
  verify_integrity_iff d m readable =
      let problems = problems_of p d m.tables m.order in
      let verdict : Verdict = record {
        is_ok = length problems == 0;
        manifest = m;
        problems = problems;
      } in
      let passes = no_problems d m m.order in
      (
        verdict,
        ap (λ r. resume r (λ manifest. get >>= λ d'. judge manifest d')) readable,
        refl,
        (
          (λ e. passes.0 ((==_iff (length problems) 0).0 e)),
          (λ h. (==_iff (length problems) 0).1 (passes.1 h)),
        ),
      )
    where
      judge : BackupManifest → Directory → M Directory Verdict
      judge manifest d' = pure (record {
        is_ok = length (problems_of p d' manifest.tables manifest.order) == 0;
        manifest = manifest;
        problems = problems_of p d' manifest.tables manifest.order;
      })

  module _ (sound : IsSound p) where
    pub read_manifest_lem :
        (d : Directory) (m : BackupManifest)
        → d.files manifest_json ≡ some (p.encode (p.print_manifest m))
        → read_manifest p d ≡ (ok m, d)
    unfolding read_manifest
    read_manifest_lem d m e =
        ap (λ r. resume r (λ raw. parsed (p.parse_manifest (p.decode raw))))
          (read_file_lem manifest_json d e)
        ∙ ap (λ o. parsed o d)
            (ap p.parse_manifest (sound.decode-encode_manifest m)
              ∙ sound.parse_manifest-print_manifest m)
      where
        parsed : Option BackupManifest → M Directory BackupManifest
        parsed o = elim o [ none ↦ throw plain_fault | some n ↦ pure n ]

    -- Where the disk refuses nothing, a key, if there is one, has 32 bytes, and each table can be read, a dump returns, with a manifest that has the given order, and
    -- the check of what it wrote accepts that manifest.
    pub verify_integrity-dump_database :
        (run_id : ℕ) (order : List ℕ) (broken : List FkEdge) (key : Option Bytes) (now : ℕ)
        (d : Directory)
        → IsPermitted d
        → IsKey key
        → All (λ t. (rows : List Row) × (p.select_all t ≡ some rows)) order
        → (manifest : BackupManifest) × ((total : ℕ) × ((d' : Directory) × ((verdict : Verdict)
                × (dump_database p run_id order broken key now d ≡ (ok (manifest, total), d'))
                × (manifest.order ≡ order)
                × (verify_integrity p d' ≡ (ok verdict, d'))
                × (verdict.manifest ≡ manifest)
                × (verdict.is_ok ≡ true))))
    unfolding IsDumped IsIntact
    verify_integrity-dump_database run_id order broken key now d free fits selects =
        let (manifest, (total, (d', returns, same, noted, dumped))) =
          dump_database_lem p sound key fits run_id order broken now d free selects in
        let (verdict, checked, about, accepts) =
          verify_integrity_iff d' manifest (read_manifest_lem d' manifest noted) in
        let intact : All (IsIntact d' manifest) manifest.order =
          All-contains (IsIntact d' manifest) manifest.order (λ t m.
            let (rows, (content, chosen, known, on_disk, stored)) =
              dumped t (subst (λ ts. contains t ts ≡ true) same m) in
            (
              record {
                row_count = length rows;
                checksum = p.sha256 content;
                file_name = table_file t (is_some key);
              },
              (content, known, on_disk, refl),
            )) in
        (manifest, (total, (d', (verdict, returns, same, checked, about, accepts.1 intact))))
