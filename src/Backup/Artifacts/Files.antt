-- ===== src/Backup/Artifacts/Files.antt =====
-- The file of a table, plain and encrypted: backend/src/modules/backup/backup-core.ts and
-- backend/src/modules/backup/encryption.ts.
use mathlib.Core.Path.{subst}
use mathlib.Core.List.{append_assoc}
use biz_pilot_ai.Prelude.{
  true, if_true, ℕ, zero, suc, ◌≡◌, refl, ap, ◌∙◌, false, ◌==◌, ==_refl, ltb, List, [], ◌∷◌, ◌++◌,
  length, take, drop, Option, none, some, if_false, arith, length-append,
}
use biz_pilot_ai.Errors.{plain_fault}
use biz_pilot_ai.Effects.{ok, err, ◌>>=◌, ◌>>◌, resume}
use biz_pilot_ai.Backup.Artifacts.{
  Bytes, FileName, table_file, Directory, Platform, IsSound, IsPermitted, IsKey, DiskOperation,
  permitted, plain_tmp, write, remove, put_file, drop_file, read_file, write_file, decrypt_bytes,
  encrypt_file, write_table, print_rows, is_some, random_iv, unlink,
}

pub permitted_lem :
    (o : DiskOperation) (f : Directory → Directory) (d : Directory)
    → d.permits o ≡ true
    → permitted o f d ≡ (ok tt, f d)
permitted_lem o f d e = if_true (d.permits o) (ok tt, f d) (err plain_fault, d) e

pub read_file_lem :
    (name : FileName) (d : Directory) {content : Bytes}
    → d.files name ≡ some content
    → read_file name d ≡ (ok content, d)
unfolding read_file
read_file_lem name d e = rw (e, read_file) refl

-- The file holds the rows, under the key if there is one.
unfoldable pub IsStored : {Row : Type 0} → Platform Row → Option Bytes → List Row → Bytes → Type 0
IsStored p none rows content = content ≡ p.encode (print_rows p rows)
IsStored p (some key) rows content =
    decrypt_bytes p key content ≡ some (p.encode (print_rows p rows))

module _ {ℓ} {A : Type ℓ} where
  take-append : (n : ℕ) (xs ys : List A) → length xs ≡ n → take n (xs ++ ys) ≡ xs
  take-append zero [] ys e = refl
  take-append zero (x ∷ xs) ys e = absurd (omega (arith, e))
  take-append (suc n) [] ys e = absurd (omega (arith, e))
  take-append (suc n) (x ∷ xs) ys e = ap (λ zs. x ∷ zs) (take-append n xs ys (omega (arith, e)))

  drop-append : (n : ℕ) (xs ys : List A) → length xs ≡ n → drop n (xs ++ ys) ≡ ys
  drop-append zero [] ys e = refl
  drop-append zero (x ∷ xs) ys e = absurd (omega (arith, e))
  drop-append (suc n) [] ys e = absurd (omega (arith, e))
  drop-append (suc n) (x ∷ xs) ys e = drop-append n xs ys (omega (arith, e))

module _ {Row : Type 0} (p : Platform Row) (sound : IsSound p) where
  decrypt_parts :
      (key iv tag secret : Bytes)
      → length iv ≡ 12
      → length tag ≡ 16
      → decrypt_bytes p key (iv ++ (tag ++ secret)) ≡ p.decipher key iv tag secret
  unfolding decrypt_bytes
  decrypt_parts key iv tag secret e f =
      if_false (ltb (length content) 28) none
        (p.decipher key (take 12 content) (take 16 (drop 12 content)) (drop 28 content))
        (ground (arith, length-append iv (tag ++ secret), length-append tag secret, e, f))
      ∙ rw
          (
            take-append 12 iv (tag ++ secret) e,
            drop-append 12 iv (tag ++ secret) e,
            take-append 16 tag secret f,
            late,
          )
          refl
    where
      content : Bytes
      content = iv ++ (tag ++ secret)

      late : drop 28 (iv ++ (tag ++ secret)) ≡ secret
      late =
          subst (λ zs. drop 28 zs ≡ secret) (append_assoc iv tag secret)
            (drop-append 28 (iv ++ tag) secret (omega (arith, length-append iv tag, e, f)))

  -- What is enciphered is deciphered by the same key.
  decrypt_bytes_lem :
      (key plain : Bytes) (i : ℕ)
      → length key ≡ 32
      → let iv = p.random_bytes 12 i in
        decrypt_bytes p key (iv ++ (p.auth_tag key iv plain ++ p.cipher key iv plain)) ≡ some plain
  decrypt_bytes_lem key plain i sized =
      decrypt_parts key (p.random_bytes 12 i) (p.auth_tag key (p.random_bytes 12 i) plain)
        (p.cipher key (p.random_bytes 12 i) plain) (sound.length-random_bytes 12 i)
        (sound.length-auth_tag key (p.random_bytes 12 i) plain)
      ∙ sound.decipher-cipher key (p.random_bytes 12 i) plain sized

  -- The plaintext is enciphered into the file of the table, and removed.
  encrypt_file_lem :
      (key : Bytes) (table : ℕ) (d : Directory) {plain : Bytes}
      → IsPermitted d
      → d.files (plain_tmp table) ≡ some plain
      → let iv = p.random_bytes 12 d.drawn in
        encrypt_file p (plain_tmp table) (table_file table true) key d ≡ (
          ok tt,
          drop_file (plain_tmp table) (
              put_file
                (table_file table true)
                (iv ++ (p.auth_tag key iv plain ++ p.cipher key iv plain))
                (record d { drawn = suc d.drawn })),
        )
  unfolding encrypt_file random_iv write_file unlink
  encrypt_file_lem key table d {plain} free found =
      let iv = p.random_bytes 12 d.drawn in
      let content = iv ++ (p.auth_tag key iv plain ++ p.cipher key iv plain) in
      let drawn = record d { drawn = suc d.drawn } in
      ap
        (λ r. resume r (λ plaintext. random_iv p >>= λ iv.
          write_file (table_file table true)
            (iv ++ (p.auth_tag key iv plaintext ++ p.cipher key iv plaintext))
          >> unlink (plain_tmp table)))
        (read_file_lem (plain_tmp table) d found)
      ∙ (ap (λ r. resume r (λ _. unlink (plain_tmp table)))
            (permitted_lem (write (table_file table true))
              (put_file (table_file table true) content) drawn
              (free (write (table_file table true))))
          ∙ permitted_lem (remove (plain_tmp table)) (drop_file (plain_tmp table))
              (put_file (table_file table true) content drawn) (free (remove (plain_tmp table))))

  -- What writing the rows of a table does to the directory.
  pub record Writes (key : Option Bytes) (table : ℕ) (rows : List Row) (d : Directory)
      : Type 0 where
    pub after : Directory
    pub content : Bytes
    pub still_permitted : IsPermitted after
    pub returns : write_table p table rows key d ≡ (ok tt, after)
    pub on_disk : after.files (table_file table (is_some key)) ≡ some content
    pub stored : IsStored p key rows content
    pub others :
        (u : ℕ)
        → (u == table) ≡ false
        → after.files (table_file u (is_some key)) ≡ d.files (table_file u (is_some key))

  pub written :
      (key : Option Bytes) (table : ℕ) (rows : List Row) (d : Directory)
      → IsPermitted d
      → IsKey key
      → Writes key table rows d
  unfolding IsKey write_table IsStored encrypt_file read_file write_file random_iv unlink
  written none table rows d free fits = record {
    after = put_file (table_file table false) (p.encode (print_rows p rows)) d;
    content = p.encode (print_rows p rows);
    still_permitted = free;
    returns =
        permitted_lem (write (table_file table false))
          (put_file (table_file table false) (p.encode (print_rows p rows))) d
          (free (write (table_file table false)));
    on_disk = rw (==_refl table) refl;
    stored = refl;
    others = λ u n. rw n refl;
  }
  written (some key) table rows d free fits =
      let plain = p.encode (print_rows p rows) in
      let iv = p.random_bytes 12 d.drawn in
      record {
        after = drop_file (plain_tmp table) (
            put_file (table_file table true)
              (iv ++ (p.auth_tag key iv plain ++ p.cipher key iv plain))
              (record (put_file (plain_tmp table) plain d) { drawn = suc d.drawn }));
        content = iv ++ (p.auth_tag key iv plain ++ p.cipher key iv plain);
        still_permitted = free;
        returns =
            ap (λ r. resume r (λ _. encrypt_file p (plain_tmp table) (table_file table true) key))
              (permitted_lem (write (plain_tmp table)) (put_file (plain_tmp table) plain) d
                (free (write (plain_tmp table))))
            ∙ encrypt_file_lem key table (put_file (plain_tmp table) plain d) free
                (rw (==_refl table) refl);
        on_disk = rw (==_refl table) refl;
        stored = decrypt_bytes_lem key plain d.drawn fits;
        others = λ u n. rw n refl;
      }
