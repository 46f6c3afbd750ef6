-- ===== src/Examples/Codec.antt =====
-- A concrete platform for the files of a backup: texts are their own bytes, the cipher is the
-- identity, and a manifest is printed as the sequence of its numbers.
use biz_pilot_ai.Prelude.{
  ◌/◌, ◌*◌, Text, is_space, ℕ, zero, suc, ◌+◌, ◌-◌, ◌≡◌, refl, ap, Bool, true, false, ◌==◌, List,
  [], ◌∷◌, length, Option, none, some, arith, ◌&&◌,
}
use biz_pilot_ai.Backup.Topology.{FkEdge}
use biz_pilot_ai.Backup.Artifacts.{
  Bytes, FileName, manifest_json, table_file, plain_tmp, Entries, BackupManifest, Platform, IsSound,
}

abbrev bit : Bool → ℕ
bit true = 1
bit false = 0

abbrev is_set : ℕ → Bool
is_set n = n == 1

is_set-bit : (b : Bool) → is_set (bit b) ≡ b
is_set-bit true = refl
is_set-bit false = refl

abbrev print_numbers : List ℕ → Text → Text
print_numbers [] rest = rest
print_numbers (x ∷ xs) rest = x ∷ print_numbers xs rest

abbrev parse_numbers : ℕ → Text → List ℕ × Text
parse_numbers zero rest = ([], rest)
parse_numbers (suc n) [] = ([], [])
parse_numbers (suc n) (x ∷ rest) = let (xs, after) = parse_numbers n rest in (x ∷ xs, after)

parse_numbers-print_numbers :
    (xs : List ℕ) (rest : Text) → parse_numbers (length xs) (print_numbers xs rest) ≡ (xs, rest)
parse_numbers-print_numbers [] rest = refl
parse_numbers-print_numbers (x ∷ xs) rest = rw (parse_numbers-print_numbers xs rest) refl

abbrev print_edges : List FkEdge → Text → Text
print_edges [] rest = rest
print_edges (e ∷ es) rest = e.table ∷ e.column ∷ e.depends_on ∷ bit e.nullable ∷ print_edges es rest

abbrev parse_edges : ℕ → Text → List FkEdge × Text
parse_edges zero rest = ([], rest)
parse_edges (suc n) (a ∷ b ∷ c ∷ d ∷ rest) =
    let (es, after) = parse_edges n rest in
    (record { table = a; column = b; depends_on = c; nullable = is_set d } ∷ es, after)
parse_edges (suc n) _ = ([], [])

parse_edges-print_edges :
    (es : List FkEdge) (rest : Text) → parse_edges (length es) (print_edges es rest) ≡ (es, rest)
parse_edges-print_edges [] rest = refl
parse_edges-print_edges (e ∷ es) rest =
    rw (parse_edges-print_edges es rest, is_set-bit e.nullable) refl

abbrev kind_of : FileName → ℕ
kind_of manifest_json = 0
kind_of (plain_tmp t) = 1
kind_of (table_file t b) = 2 + bit b

abbrev table_of : FileName → ℕ
table_of manifest_json = 0
table_of (plain_tmp t) = t
table_of (table_file t b) = t

abbrev parse_name : ℕ → ℕ → FileName
parse_name k t = elim (k == 0) [
  | true ↦ manifest_json
  | false ↦ elim (k == 1) [ true ↦ plain_tmp t | false ↦ table_file t (k == 3) ]
]

parse_name_lem : (n : FileName) → parse_name (kind_of n) (table_of n) ≡ n
parse_name_lem manifest_json = refl
parse_name_lem (plain_tmp t) = refl
parse_name_lem (table_file t true) = refl
parse_name_lem (table_file t false) = refl

abbrev print_entries : Entries → Text → Text
print_entries [] rest = rest
print_entries ((t, e) ∷ es) rest =
    t
    ∷ e.row_count
    ∷ e.checksum
    ∷ kind_of e.file_name
    ∷ table_of e.file_name
    ∷ print_entries es rest

abbrev parse_entries : ℕ → Text → Entries × Text
parse_entries zero rest = ([], rest)
parse_entries (suc n) (a ∷ b ∷ c ∷ k ∷ t ∷ rest) =
    let (es, after) = parse_entries n rest in
    ((a, record { row_count = b; checksum = c; file_name = parse_name k t }) ∷ es, after)
parse_entries (suc n) _ = ([], [])

parse_entries-print_entries :
    (es : Entries) (rest : Text) → parse_entries (length es) (print_entries es rest) ≡ (es, rest)
parse_entries-print_entries [] rest = refl
parse_entries-print_entries ((t, e) ∷ es) rest =
    rw (parse_entries-print_entries es rest, parse_name_lem e.file_name) refl

abbrev print_document : BackupManifest → Text
print_document m =
    m.run_id
    ∷ m.created_at
    ∷ bit m.encrypted
    ∷ length m.order
    ∷ length m.broken_edges
    ∷ length m.tables
    ∷ print_numbers m.order (print_edges m.broken_edges (print_entries m.tables []))

abbrev parse_document : Text → Option BackupManifest
parse_document (i ∷ c ∷ e ∷ n ∷ b ∷ t ∷ rest) =
    let (order, after) = parse_numbers n rest in
    let (broken, last) = parse_edges b after in
    let (tables, _) = parse_entries t last in
    some (record {
      run_id = i;
      created_at = c;
      order = order;
      broken_edges = broken;
      tables = tables;
      encrypted = is_set e;
    })
parse_document _ = none

parse_document-print_document : (m : BackupManifest) → parse_document (print_document m) ≡ some m
parse_document-print_document m =
    rw
      (
        parse_numbers-print_numbers m.order
            (print_edges m.broken_edges (print_entries m.tables [])),
        is_set-bit m.encrypted,
      )
      (rw (parse_edges-print_edges m.broken_edges (print_entries m.tables []))
        (rw (parse_entries-print_entries m.tables []) refl))

abbrev zeros : ℕ → Bytes
zeros zero = []
zeros (suc n) = 0 ∷ zeros n

length-zeros : (n : ℕ) → length (zeros n) ≡ n
length-zeros zero = refl
length-zeros (suc n) = rw (length-zeros n) refl

abbrev total : Bytes → ℕ
total [] = 0
total (b ∷ bs) = b + total bs

-- Table 1 has two rows, table 2 has one, all others are empty.
abbrev rows_of : ℕ → Option (List ℕ)
rows_of t = elim (t == 1) [
  | true ↦ some (5 ∷ 6 ∷ [])
  | false ↦ elim (t == 2) [ true ↦ some (7 ∷ []) | false ↦ some [] ]
]

abbrev pub plain_platform : Platform ℕ
plain_platform = record {
  sha256 = total;
  cipher = λ key iv plain. plain;
  auth_tag = λ key iv plain. zeros 16;
  decipher = λ key iv tag secret. some secret;
  random_bytes = λ n i. zeros n;
  encode = λ t. t;
  decode = λ t. t;
  print_row = λ r. (r / 2 * 2 + 70000) ∷ [];
  parse_row = λ t. elim t [ [] ↦ none | c ∷ _ ↦ some (c - 70000) ];
  in_json = λ r. r / 2 * 2;
  print_manifest = print_document;
  parse_manifest = parse_document;
  select_all = rows_of;
}

pub plain_platform-IsSound : IsSound plain_platform
plain_platform-IsSound = record {
  decipher-cipher = λ key iv plain sized. refl;
  length-auth_tag = λ key iv plain. refl;
  length-random_bytes = λ n i. length-zeros n;
  decode-encode_rows = λ rows. refl;
  decode-encode_manifest = λ m. refl;
  parse_row-print_row = λ r. ap some (drop_offset r);
  print_row_one_line = λ r. (no_break r, tt);
  print_row_not_blank = λ r. visible r;
  parse_manifest-print_manifest = parse_document-print_document;
}
  where
    drop_offset : (r : ℕ) → r / 2 * 2 + 70000 - 70000 ≡ r / 2 * 2
    drop_offset r = omega arith

    no_break : (r : ℕ) → (r / 2 * 2 + 70000 == 10) ≡ false
    no_break r = ground arith

    visible : (r : ℕ) → (is_space (r / 2 * 2 + 70000) && true) ≡ false
    visible r = ground arith
