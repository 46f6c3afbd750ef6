-- ===== src/Backup/Artifacts/Disk.antt =====
-- What a dump leaves on disk, by table: backend/src/modules/backup/backup-core.ts.
use mathlib.Core.Bool.{false≢true}
use mathlib.Core.Path.{subst}
use biz_pilot_ai.Prelude.{
  ℕ, ◌+◌, ◌≡◌, refl, sym, ap, ◌∙◌, Bool, true, false, ◌||◌, ◌==◌, ==_refl, ==_iff, if◌then◌else◌,
  List, [], ◌∷◌, length, Option, some, All, Bool-cases, inl, inr, if_false, arith,
}
use biz_pilot_ai.Effects.{ok, M, ◌>>=◌, pure, resume}
use biz_pilot_ai.Backup.Topology.{FkEdge, contains}
use biz_pilot_ai.Backup.Artifacts.{
  Bytes, manifest_json, table_file, TableMeta, BackupManifest, Directory, Platform, Entries,
  entry_of, IsSound, IsPermitted, IsKey, put_file, write, make_directory, read_file, write_manifest,
  same_name, write_file, write_table, dump_table, dump_tables, dump_database, is_some, with_entry,
}
use biz_pilot_ai.Backup.Artifacts.Files.{permitted_lem, read_file_lem, IsStored, Writes, written}

table_beside : (t : ℕ) (b : Bool) → same_name (table_file t b) manifest_json ≡ false
table_beside t true = refl
table_beside t false = refl

entry_of-with_entry :
    (t : ℕ) (e : TableMeta) (tables : Entries) → entry_of t (with_entry t e tables) ≡ some e
entry_of-with_entry t e [] = rw (==_refl t) refl
entry_of-with_entry t e ((u, f) ∷ rest) = elim (Bool-cases (u == t)) [
  | inl same ↦ rw same (rw (==_refl t) refl)
  | inr differs ↦ rw differs (rw differs (entry_of-with_entry t e rest))
]

entry_of-with_entry_other :
    (u t : ℕ) (e : TableMeta) (tables : Entries)
    → (u == t) ≡ false
    → entry_of u (with_entry t e tables) ≡ entry_of u tables
entry_of-with_entry_other u t e [] n = rw (swapped n) refl
  where
    swapped : (u == t) ≡ false → (t == u) ≡ false
    swapped m = ground (arith, m)
entry_of-with_entry_other u t e ((v, f) ∷ rest) n = elim (Bool-cases (v == t)) [
  | inl same ↦
      let here : (v == u) ≡ false = ground (arith, same, n) in
      let there : (t == u) ≡ false = ground (arith, n) in rw (same, here) (rw there refl)
  | inr differs ↦
      rw differs (ap (λ o. if v == u then some f else o) (entry_of-with_entry_other u t e rest n))
]

module _ {Row : Type 0} (p : Platform Row) (sound : IsSound p) where
  module _ (key : Option Bytes) (table : ℕ) (rows : List Row) (d : Directory) (free : IsPermitted d)
      (fits : IsKey key) where
    file : Writes p sound key table rows d
    file = written p sound key table rows d free fits

    entry : TableMeta
    entry = record {
      row_count = length rows;
      checksum = p.sha256 file.content;
      file_name = table_file table (is_some key);
    }

    noted : Bytes → TableMeta
    noted content = record {
      row_count = length rows;
      checksum = p.sha256 content;
      file_name = table_file table (is_some key);
    }

    noting : M Directory TableMeta
    noting = read_file (table_file table (is_some key)) >>= λ content. pure (noted content)

    dump_selected :
        p.select_all table ≡ some rows
        → dump_table p key table d ≡ resume (write_table p table rows key d) (λ _. noting)
    unfolding dump_table noting noted
    dump_selected e = rw (e, dump_table) refl

    dump_table_lem :
        p.select_all table ≡ some rows → dump_table p key table d ≡ (ok entry, file.after)
    unfolding entry noting noted
    dump_table_lem e =
        dump_selected e
        ∙ (ap (λ r. resume r (λ _. noting)) file.returns
            ∙ ap (λ r. resume r (λ content. pure (noted content)))
                (read_file_lem (table_file table (is_some key)) file.after file.on_disk))

  -- What the manifest and the directory have of a table.
  unfoldable pub IsDumped : Option Bytes → Entries → Directory → ℕ → Type 0
  IsDumped key tables d t =
      (rows : List Row) × ((content : Bytes) × (p.select_all t ≡ some rows)
        × (entry_of t tables
            ≡ some (record {
              row_count = length rows;
              checksum = p.sha256 content;
              file_name = table_file t (is_some key);
            }))
        × (d.files (table_file t (is_some key)) ≡ some content)
        × IsStored p key rows content)

  module _ (key : Option Bytes) (fits : IsKey key) where
    IsDumped-next :
        (t : ℕ) (rows : List Row) (tables : Entries) (d : Directory) (free : IsPermitted d)
        → p.select_all t ≡ some rows
        → (u : ℕ) → ((u == t) ≡ false → IsDumped key tables d u)
        → IsDumped key
            (with_entry t (entry key t rows d free fits) tables)
            (file key t rows d free fits).after
            u
    unfolding IsDumped entry file
    IsDumped-next t rows tables d free e u before = elim (Bool-cases (u == t)) [
      | inl same ↦
          let w = written p sound key t rows d free fits in
          let u≡t : u ≡ t = (==_iff u t).0 same in
          subst (λ v. IsDumped key (with_entry t (entry key t rows d free fits) tables) w.after v)
            (sym u≡t)
            (
              rows,
              (
                w.content,
                e,
                entry_of-with_entry t (entry key t rows d free fits) tables,
                w.on_disk,
                w.stored,
              ),
            )
      | inr differs ↦
          let w = written p sound key t rows d free fits in
          let (rs, (content, chosen, known, on_disk, stored)) = before differs in
          (
            rs,
            (
              content,
              chosen,
              entry_of-with_entry_other u t (entry key t rows d free fits) tables differs ∙ known,
              w.others u differs ∙ on_disk,
              stored,
            ),
          )
    ]

    dump_tables_lem :
        (ts done : List ℕ) (tables : Entries) (total : ℕ) (d : Directory)
        → IsPermitted d
        → All (λ t. (rows : List Row) × (p.select_all t ≡ some rows)) ts
        → ((t : ℕ) → contains t done ≡ true → IsDumped key tables d t)
        → (out : Entries × ℕ) × ((d' : Directory) × (dump_tables p key ts (tables, total) d
              ≡ (ok out, d'))
            × IsPermitted d'
            × ((t : ℕ) → (contains t done || contains t ts) ≡ true → IsDumped key out.0 d' t))
    unfolding dump_tables entry
    dump_tables_lem [] done tables total d free selects h =
        ((tables, total), (d, refl, free, (λ t m. h t (ground (arith, m)))))
    dump_tables_lem (t ∷ ts) done tables total d free ((rows, e), selects) h =
        let (out, (d', returns, free', all)) =
          dump_tables_lem ts (t ∷ done) (with_entry t (entry key t rows d free fits) tables)
            (total + length rows) (file key t rows d free fits).after
            (file key t rows d free fits).still_permitted selects
            (λ u m. IsDumped-next t rows tables d free e u (λ n. h u (ground (arith, m, n)))) in
        (
          out,
          (
            d',
            ap
                  (λ r.
                    resume r
                      (λ en. dump_tables p key ts (with_entry t en tables, total + en.row_count)))
                  (dump_table_lem key t rows d free fits e)
                ∙ returns,
            free',
            (λ u m. all u (ground (arith, m))),
          ),
        )

    -- A dump returns a manifest that is on disk, beside the files of the tables.
    pub dump_database_lem :
        (run_id : ℕ) (order : List ℕ) (broken : List FkEdge) (now : ℕ) (d : Directory)
        → IsPermitted d
        → All (λ t. (rows : List Row) × (p.select_all t ≡ some rows)) order
        → (manifest : BackupManifest) × ((total : ℕ) × ((d' : Directory) × (dump_database p run_id
                  order broken key now d
                ≡ (ok (manifest, total), d'))
              × (manifest.order ≡ order)
              × (d'.files manifest_json ≡ some (p.encode (p.print_manifest manifest)))
              × ((t : ℕ) → contains t order ≡ true → IsDumped key manifest.tables d' t)))
    unfolding dump_database write_manifest write_file IsDumped
    dump_database_lem run_id order broken now d free selects =
        let (out, (d', returns, free', all)) =
          dump_tables_lem order [] [] 0 d free selects (λ t m. absurd (false≢true m)) in
        let manifest = manifest_of (out.0) in
        (
          manifest,
          (
            out.1,
            (
              with_manifest manifest d',
              ap
                    (λ r.
                      resume (resume r (λ _. dump_tables p key order ([], 0)))
                        (λ dumped. write_manifest p (manifest_of dumped.0) dumped.1))
                    (permitted_lem make_directory (λ e. e) d (free make_directory))
                  ∙ (ap (λ r. resume r (λ dumped. write_manifest p (manifest_of dumped.0) dumped.1))
                        returns
                      ∙ ap (λ r. resume r (λ _. pure (manifest, out.1)))
                          (permitted_lem (write manifest_json)
                            (put_file manifest_json (p.encode (p.print_manifest manifest))) d'
                            (free' (write manifest_json)))),
              refl,
              refl,
              (λ t m. beside_manifest out.0 manifest d' t (all t m)),
            ),
          ),
        )
      where
        manifest_of : Entries → BackupManifest
        manifest_of tables = record {
          run_id = run_id;
          created_at = now;
          order = order;
          broken_edges = broken;
          tables = tables;
          encrypted = is_some key;
        }

        with_manifest : BackupManifest → Directory → Directory
        with_manifest manifest = put_file manifest_json (p.encode (p.print_manifest manifest))

        beside_manifest :
            (tables : Entries) (manifest : BackupManifest) (d : Directory) (t : ℕ)
            → IsDumped key tables d t
            → IsDumped key tables (with_manifest manifest d) t
        beside_manifest tables manifest d t (rs, (content, chosen, known, on_disk, stored)) = (
          rs,
          (
            content,
            chosen,
            known,
            if_false (same_name (table_file t (is_some key)) manifest_json)
                  (some (p.encode (p.print_manifest manifest)))
                  (d.files (table_file t (is_some key))) (table_beside t (is_some key))
                ∙ on_disk,
            stored,
          ),
        )
