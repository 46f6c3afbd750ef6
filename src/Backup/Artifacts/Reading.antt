-- ===== src/Backup/Artifacts/Reading.antt =====
-- What `readTableRows` of backend/src/modules/backup/backup-core.ts reads back from a dump.
use biz_pilot_ai.Prelude.{
  select, Text, is_blank, ℕ, ◌≡◌, refl, sym, ap, ◌∙◌, false, not, ◌==◌, List, [], ◌∷◌, ◌++◌, length,
  map, Option, none, some, All,
}
use mathlib.Core.List.{append_assoc, append-nil}
use biz_pilot_ai.Errors.{plain_fault}
use biz_pilot_ai.Effects.{ok, M, resume, pure, throw}
use biz_pilot_ai.Backup.Topology.{FkEdge}
use biz_pilot_ai.Backup.Topology.Sets.{All-contains}
use biz_pilot_ai.Backup.Artifacts.{
  Bytes, FileName, table_file, TableMeta, BackupManifest, Directory, Platform, entry_of, IsSound,
  IsPermitted, IsKey, dump_database, is_some, print_rows, decrypt_bytes, decrypt_file,
}
use biz_pilot_ai.Backup.Artifacts.Rows.{split_lines, parse_rows, read_text, read_table_rows}
use biz_pilot_ai.Backup.Artifacts.Files.{read_file_lem, IsStored}
use biz_pilot_ai.Backup.Artifacts.Disk.{dump_database_lem, IsDumped}

split_line :
    (before line rest : Text)
    → All (λ c. (c == 10) ≡ false) line
    → split_lines before (line ++ (10 ∷ rest)) ≡ (before ++ line) ∷ split_lines [] rest
unfolding split_lines
split_line before [] rest h = ap (λ l. l ∷ split_lines [] rest) (sym (append-nil before))
split_line before (c ∷ cs) rest h =
    rw (h.0, split_lines)
      (split_line (before ++ c ∷ []) cs rest h.1
        ∙ ap (λ l. l ∷ split_lines [] rest) (append_assoc before (c ∷ []) cs))

module _ {Row : Type 0} (p : Platform Row) (sound : IsSound p) where
  -- What was printed is read back, line by line.
  parse_rows-print_rows :
      (rows : List Row)
      → parse_rows p (select (λ l. not (is_blank l)) (split_lines [] (print_rows p rows)))
        ≡ some (map p.in_json rows)
  unfolding print_rows split_lines parse_rows
  parse_rows-print_rows [] = refl
  parse_rows-print_rows (r ∷ rs) =
      rw (split_line [] (p.print_row r) (print_rows p rs) (sound.print_row_one_line r)) (
        rw (sound.print_row_not_blank r)
          (rw (sound.parse_row-print_row r, parse_rows-print_rows rs) refl))

  module _ (key : Option Bytes) (name : FileName) (rows : List Row) (d : Directory)
      {content : Bytes} where
    read_text_lem :
        d.files name ≡ some content
        → IsStored p key rows content
        → read_text p key name d ≡ (ok (print_rows p rows), d)
    unfolding IsStored read_text decrypt_file
    read_text_lem e stored =
        elim key
            as (λ k.
              IsStored p k rows content → read_text p k name d ≡ (ok (print_rows p rows), d)) [
                | none ↦ λ (plain : content ≡ p.encode (print_rows p rows)).
                    ap (λ r. resume r (λ c. pure (p.decode c))) (read_file_lem name d e)
                    ∙ ap (λ t. (ok t, d)) (ap p.decode plain ∙ sound.decode-encode_rows rows)
                | some k ↦
                    λ (plain : decrypt_bytes p k content ≡ some (p.encode (print_rows p rows))).
                      ap
                        (λ r.
                          resume (resume r (λ c. opened (decrypt_bytes p k c)))
                            (λ c. pure (p.decode c)))
                        (read_file_lem name d e)
                      ∙ (ap (λ o. resume (opened o d) (λ c. pure (p.decode c))) plain
                          ∙ ap (λ t. (ok t, d)) (sound.decode-encode_rows rows))
              ]
          stored
      where
        opened : Option Bytes → M Directory Bytes
        opened o = elim o [ none ↦ throw plain_fault | some plain ↦ pure plain ]

    read_table_rows_lem :
        d.files name ≡ some content
        → IsStored p key rows content
        → read_table_rows p name (is_some key) key d ≡ (ok (map p.in_json rows), d)
    unfolding read_table_rows
    read_table_rows_lem e stored =
        by_key key
        ∙ (ap
              (λ r. resume r (λ text.
                parsed (parse_rows p (select (λ l. not (is_blank l)) (split_lines [] text)))))
              (read_text_lem e stored)
            ∙ ap (λ o. parsed o d) (parse_rows-print_rows rows))
      where
        parsed : Option (List Row) → M Directory (List Row)
        parsed o = elim o [ none ↦ throw plain_fault | some rs ↦ pure rs ]

        by_key :
            (k : Option Bytes)
            → read_table_rows p name (is_some k) k d
              ≡ resume (read_text p k name d) (λ text.
                parsed (parse_rows p (select (λ l. not (is_blank l)) (split_lines [] text))))
        by_key none = refl
        by_key (some k) = refl

  -- Where the disk refuses nothing, a key, if there is one, has 32 bytes, and each table can be read, a dump returns, and afterwards each
  -- table's file is read back, with the same key or without one as it was written, as the rows that
  -- the table had, in order, each as JSON keeps it.
  pub read_table_rows-dump_database :
      (run_id : ℕ) (order : List ℕ) (broken : List FkEdge) (key : Option Bytes) (now : ℕ)
      (d : Directory)
      → IsPermitted d
      → IsKey key
      → All (λ t. (rows : List Row) × (p.select_all t ≡ some rows)) order
      → (manifest : BackupManifest) × ((total : ℕ) × ((d' : Directory) × (dump_database p run_id
                order broken key now d
              ≡ (ok (manifest, total), d'))
            × All
                (λ t.
                  (entry : TableMeta) × ((rows : List Row) × (entry_of t manifest.tables
                      ≡ some entry)
                    × (p.select_all t ≡ some rows)
                    × (entry.row_count ≡ length rows)
                    × (read_table_rows p entry.file_name (is_some key) key d'
                        ≡ (ok (map p.in_json rows), d'))))
                order))
  unfolding IsDumped
  read_table_rows-dump_database run_id order broken key now d free fits selects =
      let (manifest, (total, (d', returns, same, noted, dumped))) =
        dump_database_lem p sound key fits run_id order broken now d free selects in
      (
        manifest,
        (
          total,
          (
            d',
            returns,
            All-contains
                (λ t.
                  (entry : TableMeta) × ((rows : List Row) × (entry_of t manifest.tables
                      ≡ some entry)
                    × (p.select_all t ≡ some rows)
                    × (entry.row_count ≡ length rows)
                    × (read_table_rows p entry.file_name (is_some key) key d'
                        ≡ (ok (map p.in_json rows), d'))))
                order
                (λ t m.
                  let (rows, (content, chosen, known, on_disk, stored)) = dumped t m in
                  (
                    record {
                      row_count = length rows;
                      checksum = p.sha256 content;
                      file_name = table_file t (is_some key);
                    },
                    (
                      rows,
                      known,
                      chosen,
                      refl,
                      read_table_rows_lem key (table_file t (is_some key)) rows d' on_disk stored,
                    ),
                  )),
          ),
        ),
      )
