-- ===== src/Backup/Artifacts/Rows.antt =====
-- `readTableRows` of backend/src/modules/backup/backup-core.ts.
use biz_pilot_ai.Prelude.{
  select, Text, is_blank, Bool, true, false, not, ◌==◌, if◌then◌else◌, List, [], ◌∷◌, ◌++◌, Option,
  none, some,
}
use biz_pilot_ai.Errors.{plain_fault}
use biz_pilot_ai.Effects.{M, ◌>>=◌, pure, throw}
use biz_pilot_ai.Backup.Artifacts.{Bytes, FileName, Directory, Platform, read_file, decrypt_file}

-- `text.split('\n')`: the line so far comes first.
unfoldable pub split_lines : Text → Text → List Text
split_lines line [] = line ∷ []
split_lines line (c ∷ cs) = elim (c == 10) [
  | true ↦ line ∷ split_lines [] cs
  | false ↦ split_lines (line ++ c ∷ []) cs
]

module _ {Row : Type 0} (p : Platform Row) where
  unfoldable pub parse_rows : List Text → Option (List Row)
  parse_rows [] = some []
  parse_rows (l ∷ ls) = elim (p.parse_row l) [
    | none ↦ none
    | some r ↦ elim (parse_rows ls) [ none ↦ none | some rs ↦ some (r ∷ rs) ]
  ]

  unfoldable pub read_text : Option Bytes → FileName → M Directory Text
  unfolding decrypt_file read_file
  read_text none name = read_file name >>= λ content. pure (p.decode content)
  read_text (some key) name = decrypt_file p name key >>= λ content. pure (p.decode content)

  -- `readTableRows`: an encrypted file needs a key.
  unfoldable pub read_table_rows : FileName → Bool → Option Bytes → M Directory (List Row)
  unfolding read_text split_lines parse_rows
  read_table_rows name encrypted key =
      (if encrypted
        then elim key [ none ↦ throw plain_fault | some k ↦ read_text (some k) name ]
        else read_text none name)
      >>= λ text. elim (parse_rows (select (λ l. not (is_blank l)) (split_lines [] text))) [
        | none ↦ throw plain_fault
        | some rows ↦ pure rows
      ]
