-- ===== src/Backup/Artifacts.antt =====
-- The files of a backup: `dumpDatabaseToDirectory` of
-- backend/src/modules/backup/backup-core.ts, and backend/src/modules/backup/encryption.ts. Tables
-- are numbers and a file is named by its table. What Node, its `crypto` and the database do is a
-- parameter, `Platform`. Owners and modes of files are left out.
pub mod Verify
pub mod Rows
pub mod Files
pub mod Disk
pub mod Integrity
pub mod Reading
use biz_pilot_ai.Prelude.{
  select, Text, is_blank, All, ◌≡◌, ℕ, zero, suc, ◌+◌, Bool, true, false, not, ◌&&◌, ◌||◌, ◌==◌,
  ltb, leb, if◌then◌else◌, List, [], ◌∷◌, ◌++◌, map, length, take, drop, Option, none, some,
}
use biz_pilot_ai.Errors.{plain_fault}
use biz_pilot_ai.Effects.{Result, ok, err, M, ◌>>=◌, ◌>>◌, pure, throw, get, modify}
use biz_pilot_ai.Backup.Topology.{FkEdge}

abbrev pub Bytes : Type 0
Bytes = List ℕ

-- The names in the directory of one run.
pub data FileName : Type 0 where
  manifest_json : FileName
  table_file : ℕ → Bool → FileName
  plain_tmp : ℕ → FileName

abbrev pub same_name : FileName → FileName → Bool
same_name manifest_json manifest_json = true
same_name (table_file a true) (table_file b true) = a == b
same_name (table_file a false) (table_file b false) = a == b
same_name (plain_tmp a) (plain_tmp b) = a == b
same_name _ _ = false

pub record TableMeta : Type 0 where
  pub row_count : ℕ
  pub checksum : ℕ
  pub file_name : FileName

-- The object `tables`, from names of tables to their entries.
abbrev pub Entries : Type 0
Entries = List (ℕ × TableMeta)

abbrev pub entry_of : ℕ → Entries → Option TableMeta
entry_of t [] = none
entry_of t ((u, e) ∷ rest) = let later = entry_of t rest in if u == t then some e else later

abbrev pub with_entry : ℕ → TableMeta → Entries → Entries
with_entry t e [] = (t, e) ∷ []
with_entry t e ((u, f) ∷ rest) =
    let later = with_entry t e rest in if u == t then (t, e) ∷ rest else (u, f) ∷ later

pub record BackupManifest : Type 0 where
  pub run_id : ℕ
  pub created_at : ℕ
  pub order : List ℕ
  pub broken_edges : List FkEdge
  pub tables : Entries
  pub encrypted : Bool

-- What the code asks of the disk, apart from reading.
pub data DiskOperation : Type 0 where
  make_directory : DiskOperation
  write remove : FileName → DiskOperation

-- The directory, how many times random bytes were drawn, and what the disk lets the process do.
pub record Directory : Type 0 where
  pub files : FileName → Option Bytes
  pub drawn : ℕ
  pub permits : DiskOperation → Bool

-- No operation is refused.
abbrev pub IsPermitted : Directory → Type 0
IsPermitted d = (o : DiskOperation) → d.permits o ≡ true

-- What the code calls: SHA-256, AES-256-GCM, `randomBytes`, UTF-8, JSON and a query. `in_json`
-- is what JSON keeps of a row: the `Date` in a column of times comes back as its text.
-- `cipher` matters for keys of 32 bytes only, the length that `decodeEncryptionKey` lets pass.
pub record Platform (Row : Type 0) : Type 0 where
  pub sha256 : Bytes → ℕ
  pub cipher : Bytes → Bytes → Bytes → Bytes
  pub auth_tag : Bytes → Bytes → Bytes → Bytes
  pub decipher : Bytes → Bytes → Bytes → Bytes → Option Bytes
  pub random_bytes : ℕ → ℕ → Bytes
  pub encode : Text → Bytes
  pub decode : Bytes → Text
  pub print_row : Row → Text
  pub parse_row : Text → Option Row
  pub in_json : Row → Row
  pub print_manifest : BackupManifest → Text
  pub parse_manifest : Text → Option BackupManifest
  pub select_all : ℕ → Option (List Row)

abbrev pub iv_length : ℕ
iv_length = 12

abbrev pub auth_tag_length : ℕ
auth_tag_length = 16

abbrev pub put_file : FileName → Bytes → Directory → Directory
put_file name content d = record d {
  files = λ n. if same_name n name then some content else d.files n;
}

abbrev pub drop_file : FileName → Directory → Directory
drop_file name d = record d { files = λ n. if same_name n name then none else d.files n }

-- An operation that the disk refuses throws. What a broken write leaves is not looked at, as the
-- code that called it throws, too.
abbrev pub permitted : DiskOperation → (Directory → Directory) → M Directory (Unit {0})
permitted o f d = if d.permits o then (ok tt, f d) else (err plain_fault, d)

unfoldable pub write_file : FileName → Bytes → M Directory (Unit {0})
write_file name content = permitted (write name) (put_file name content)

unfoldable pub read_file : FileName → M Directory Bytes
read_file name d = elim (d.files name) [
  | none ↦ (err plain_fault, d)
  | some content ↦ (ok content, d)
]

unfoldable pub unlink : FileName → M Directory (Unit {0})
unlink name = permitted (remove name) (drop_file name)

abbrev pub is_some {ℓ} : {A : Type ℓ} → Option A → Bool
is_some none = false
is_some (some a) = true

module _ {Row : Type 0} (p : Platform Row) where
  unfoldable pub random_iv : M Directory Bytes
  random_iv d = (ok (p.random_bytes iv_length d.drawn), record d { drawn = suc d.drawn })

  -- `encryptFile`.
  unfoldable pub encrypt_file : FileName → FileName → Bytes → M Directory (Unit {0})
  unfolding read_file random_iv write_file unlink
  encrypt_file input output key = read_file input >>= λ plaintext. random_iv >>= λ iv.
      let ciphertext = p.cipher key iv plaintext in
      write_file output (iv ++ (p.auth_tag key iv plaintext ++ ciphertext))
      >> (if same_name output input then pure tt else unlink input)

  unfoldable pub decrypt_bytes : Bytes → Bytes → Option Bytes
  decrypt_bytes key content =
      if ltb (length content) (iv_length + auth_tag_length)
      then none
      else p.decipher key (take iv_length content) (take auth_tag_length (drop iv_length content))
          (drop (iv_length + auth_tag_length) content)

  -- `decryptFileToBuffer`.
  unfoldable pub decrypt_file : FileName → Bytes → M Directory Bytes
  unfolding read_file decrypt_bytes
  decrypt_file input key = read_file input >>= λ content. elim (decrypt_bytes key content) [
    | none ↦ throw plain_fault
    | some plain ↦ pure plain
  ]

  -- One line for each row.
  unfoldable pub print_rows : List Row → Text
  print_rows [] = []
  print_rows (r ∷ rs) = p.print_row r ++ (10 ∷ print_rows rs)

  unfoldable pub write_table : ℕ → List Row → Option Bytes → M Directory (Unit {0})
  unfolding encrypt_file write_file print_rows
  write_table table rows none = write_file (table_file table false) (p.encode (print_rows rows))
  write_table table rows (some key) =
      write_file (plain_tmp table) (p.encode (print_rows rows))
      >> encrypt_file (plain_tmp table) (table_file table true) key

  unfoldable pub dump_table : Option Bytes → ℕ → M Directory TableMeta
  unfolding write_table read_file
  dump_table key table = elim (p.select_all table) [
    | none ↦ throw plain_fault
    | some rows ↦
        write_table table rows key
        >> (read_file (table_file table (is_some key)) >>= λ content. pure (record {
          row_count = length rows;
          checksum = p.sha256 content;
          file_name = table_file table (is_some key);
        }))
  ]

  unfoldable pub dump_tables : Option Bytes → List ℕ → Entries × ℕ → M Directory (Entries × ℕ)
  unfolding dump_table
  dump_tables key [] (tables, total) = pure (tables, total)
  dump_tables key (t ∷ ts) (tables, total) = dump_table key t >>= λ entry.
      dump_tables key ts (with_entry t entry tables, total + entry.row_count)

  unfoldable pub write_manifest : BackupManifest → ℕ → M Directory (BackupManifest × ℕ)
  unfolding write_file
  write_manifest manifest total =
      write_file manifest_json (p.encode (p.print_manifest manifest)) >> pure (manifest, total)

  unfoldable pub dump_database :
      ℕ → List ℕ → List FkEdge → Option Bytes → ℕ → M Directory (BackupManifest × ℕ)
  unfolding dump_tables write_manifest
  dump_database run_id order broken key now =
      permitted make_directory (λ d. d) >> dump_tables key order ([], 0) >>= λ dumped.
      write_manifest
        (record {
          run_id = run_id;
          created_at = now;
          order = order;
          broken_edges = broken;
          tables = dumped.0;
          encrypted = is_some key;
        })
        dumped.1

-- A key of the length that AES-256 takes, if there is one.
unfoldable pub IsKey : Option Bytes → Type 0
IsKey none = Unit
IsKey (some key) = length key ≡ 32

-- What the code relies on: what was enciphered under a key of 32 bytes is deciphered, what was printed is read back as far as
-- JSON keeps it, lengths are those asked for, and JSON is no blank line and has no line breaks.
pub record IsSound {Row : Type 0} (p : Platform Row) : Type 0 where
  pub decipher-cipher :
      (key iv plain : Bytes)
      → length key ≡ 32
      → p.decipher key iv (p.auth_tag key iv plain) (p.cipher key iv plain) ≡ some plain
  pub length-auth_tag : (key iv plain : Bytes) → length (p.auth_tag key iv plain) ≡ 16
  pub length-random_bytes : (n i : ℕ) → length (p.random_bytes n i) ≡ n
  pub decode-encode_rows :
      (rows : List Row) → p.decode (p.encode (print_rows p rows)) ≡ print_rows p rows
  pub decode-encode_manifest :
      (m : BackupManifest) → p.decode (p.encode (p.print_manifest m)) ≡ p.print_manifest m
  pub parse_row-print_row : (r : Row) → p.parse_row (p.print_row r) ≡ some (p.in_json r)
  pub print_row_one_line : (r : Row) → All (λ c. (c == 10) ≡ false) (p.print_row r)
  pub print_row_not_blank : (r : Row) → is_blank (p.print_row r) ≡ false
  pub parse_manifest-print_manifest :
      (m : BackupManifest) → p.parse_manifest (p.print_manifest m) ≡ some m
