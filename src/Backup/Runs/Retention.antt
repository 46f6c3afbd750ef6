-- ===== src/Backup/Runs/Retention.antt =====
-- What `cleanupOldBackups` of backend/src/modules/backup/backup.service.ts prunes.
use mathlib.Core.Path.{subst}
use mathlib.Core.Bool.{false≢true}
use mathlib.Core.List.{Memᴰ}
use biz_pilot_ai.Prelude.{
  select, select-mem, ℕ, zero, suc, ◌≡◌, ◌≤◌, ◌-◌, ◌*◌, ◌∙◌, sym, refl, ◌⊎◌, inl, inr, Bool, true,
  false, ◌==◌, ltb, leb, List, [], ◌∷◌, All, All-map, All-mem, All-of_mem, All-find_first, Apart,
  Apart-mem, Bool-cases, Option-cases, mem-update_many, update_many, length-update_many, length,
  take, drop, arith, find_first, find_first-mem, find_first-eq-none,
}
use biz_pilot_ai.Backup.Runs.{
  BackupRun, is_live, has_run_id, mark_pruned, insert_latest, latest_first, prune,
  eligible_for_pruning, cleanup_old_backups,
}

module _ {ℓ} {A : Type ℓ} where
  drop-mem : (n : ℕ) (xs : List A) {x : A} → Memᴰ x (drop n xs) → Memᴰ x xs
  drop-mem zero xs m = m
  drop-mem (suc n) [] m = m
  drop-mem (suc n) (y ∷ ys) m = Memᴰ.tail (drop-mem n ys m)

  All-drop {κ} : (P : A → Type κ) (n : ℕ) (xs : List A) → All P xs → All P (drop n xs)
  All-drop P zero xs h = h
  All-drop P (suc n) [] h = h
  All-drop P (suc n) (x ∷ xs) h = All-drop P n xs h.1

  take-mem : (n : ℕ) (xs : List A) {x : A} → Memᴰ x (take n xs) → Memᴰ x xs
  take-mem zero xs m = elim m [ ]
  take-mem (suc n) [] m = m
  take-mem (suc n) (y ∷ ys) (Memᴰ.head e) = Memᴰ.head e
  take-mem (suc n) (y ∷ ys) (Memᴰ.tail m) = Memᴰ.tail (take-mem n ys m)

  -- What comes first is related to all that is dropped.
  Apart-split {κ} :
      (R : A → A → Type κ) (n : ℕ) (xs : List A)
      → Apart R xs
      → All (λ a. All (R a) (drop n xs)) (take n xs)
  Apart-split R zero xs h = tt
  Apart-split R (suc n) [] h = tt
  Apart-split R (suc n) (x ∷ xs) h = (All-drop (R x) n xs h.0, Apart-split R n xs h.1)

  All-select {κ} : (P : A → Type κ) (p : A → Bool) (xs : List A) → All P xs → All P (select p xs)
  All-select P p [] h = tt
  All-select P p (x ∷ xs) h = elim (Bool-cases (p x)) [
    | inl e ↦ rw e (h.0, All-select P p xs h.1)
    | inr e ↦ rw e (All-select P p xs h.1)
  ]

  Apart-select {κ} :
      (R : A → A → Type κ) (p : A → Bool) (xs : List A) → Apart R xs → Apart R (select p xs)
  Apart-select R p [] h = tt
  Apart-select R p (x ∷ xs) h = elim (Bool-cases (p x)) [
    | inl e ↦ rw e (All-select (R x) p xs h.0, Apart-select R p xs h.1)
    | inr e ↦ rw e (Apart-select R p xs h.1)
  ]

All-insert_latest {κ} :
    (P : BackupRun → Type κ) (r : BackupRun) (rs : List BackupRun)
    → P r
    → All P rs
    → All P (insert_latest r rs)
All-insert_latest P r [] h k = (h, tt)
All-insert_latest P r (s ∷ ss) h k = elim (Bool-cases (leb s.started_at r.started_at)) [
  | inl e ↦ rw e (h, k)
  | inr e ↦ rw e (k.0, All-insert_latest P r ss h k.1)
]

All-latest_first {κ} :
    (P : BackupRun → Type κ) (rs : List BackupRun) → All P rs → All P (latest_first rs)
All-latest_first P [] h = tt
All-latest_first P (r ∷ rs) h =
    All-insert_latest P r (latest_first rs) h.0 (All-latest_first P rs h.1)

IsLater : BackupRun → BackupRun → Type 0
IsLater a b = b.started_at ≤ a.started_at

insert_latest-sorted :
    (r : BackupRun) (rs : List BackupRun) → Apart IsLater rs → Apart IsLater (insert_latest r rs)
unfolding IsLater
insert_latest-sorted r [] h = (tt, tt)
insert_latest-sorted r (s ∷ ss) h = elim (Bool-cases (leb s.started_at r.started_at)) [
  | inl e ↦
      let below : s.started_at ≤ r.started_at = ground (arith, e) in
      rw e ((below, All-map (IsLater s) (IsLater r) ss (λ z l. omega (arith, l, below)) h.0), h)
  | inr e ↦
      rw e
        (All-insert_latest (IsLater s) r ss (ground (arith, e)) h.0, insert_latest-sorted r ss h.1)
]

latest_first-sorted : (rs : List BackupRun) → Apart IsLater (latest_first rs)
latest_first-sorted [] = tt
latest_first-sorted (r ∷ rs) = insert_latest-sorted r (latest_first rs) (latest_first-sorted rs)

abbrev IsOther : BackupRun → BackupRun → Type 0
IsOther a b = (a.id == b.id) ≡ false

insert_latest-Apart :
    (r : BackupRun) (rs : List BackupRun)
    → All (IsOther r) rs
    → Apart IsOther rs
    → Apart IsOther (insert_latest r rs)
insert_latest-Apart r [] h k = (tt, tt)
insert_latest-Apart r (s ∷ ss) h k = elim (Bool-cases (leb s.started_at r.started_at)) [
  | inl e ↦ rw e (h, k)
  | inr e ↦ rw e (
    All-insert_latest (IsOther s) r ss (ground (arith, h.0)) k.0,
    insert_latest-Apart r ss h.1 k.1,
  )
]

latest_first-Apart : (rs : List BackupRun) → Apart IsOther rs → Apart IsOther (latest_first rs)
latest_first-Apart [] h = tt
latest_first-Apart (r ∷ rs) h =
    insert_latest-Apart r (latest_first rs) (All-latest_first (IsOther r) rs h.0)
      (latest_first-Apart rs h.1)

module _ (deletes : ℕ → Bool) (now : ℕ) where
  prune_keeps :
      (rs runs : List BackupRun) (n : ℕ) {c : BackupRun}
      → All (IsOther c) rs
      → Memᴰ c runs
      → Memᴰ c (prune deletes now rs n runs).1
  unfolding prune
  prune_keeps [] runs n h m = m
  prune_keeps (r ∷ rs) runs n h m = elim (Option-cases r.file_path) [
    | inl e ↦ rw (e, prune) (prune_keeps rs runs n h.1 m)
    | inr (path, e) ↦ elim (Bool-cases (deletes path)) [
      | inl gone ↦
          rw (e, gone, prune)
            (prune_keeps rs (update_many (has_run_id r.id) (mark_pruned now) runs) (suc n) h.1
              (mem-update_many (has_run_id r.id) (mark_pruned now) runs m h.0))
      | inr stuck ↦ rw (e, stuck, prune) m
    ]
  ]

  length-prune :
      (rs runs : List BackupRun) (n : ℕ) → length (prune deletes now rs n runs).1 ≡ length runs
  unfolding prune
  length-prune [] runs n = refl
  length-prune (r ∷ rs) runs n = elim (Option-cases r.file_path) [
    | inl e ↦ rw (e, prune) (length-prune rs runs n)
    | inr (path, e) ↦ elim (Bool-cases (deletes path)) [
      | inl gone ↦
          rw (e, gone, prune)
            (length-prune rs (update_many (has_run_id r.id) (mark_pruned now) runs) (suc n)
              ∙ length-update_many (has_run_id r.id) (mark_pruned now) runs)
      | inr stuck ↦ rw (e, stuck, prune) refl
    ]
  ]

-- Whether or not each directory can be deleted, where identifiers are unique no row is removed, and the given number of the latest backups that
-- succeeded and were not pruned stay as they are. Of the other rows, one changes only if it is such a
-- backup, was begun before the cutoff, and no later than each of those that stay.
pub cleanup_old_backups_lem :
    (deletes : ℕ → Bool) (retention_days min_retained now : ℕ) (runs : List BackupRun)
    → Apart (λ a b. (a.id == b.id) ≡ false) runs
    → (length (cleanup_old_backups deletes retention_days min_retained now runs).1 ≡ length runs)
      × All
          (λ r. Memᴰ r (cleanup_old_backups deletes retention_days min_retained now runs).1)
          (take min_retained (latest_first (select is_live runs)))
      × All
          (λ r.
            Memᴰ r (cleanup_old_backups deletes retention_days min_retained now runs).1
            ⊎ ((is_live r ≡ true)
                × (ltb r.started_at (now - retention_days * 24 * 60 * 60 * 1000) ≡ true)
                × All
                    (λ k. r.started_at ≤ k.started_at)
                    (take min_retained (latest_first (select is_live runs)))))
          runs
unfolding cleanup_old_backups eligible_for_pruning IsLater
cleanup_old_backups_lem deletes retention_days min_retained now runs apart = (
  length-prune deletes now eligible runs 0,
  All-of_mem (λ r. Memᴰ r after) kept stays,
  All-of_mem Fate runs fate,
)
  where
    cutoff : ℕ
    cutoff = now - retention_days * 24 * 60 * 60 * 1000

    ordered : List BackupRun
    ordered = latest_first (select is_live runs)

    kept : List BackupRun
    kept = take min_retained ordered

    eligible : List BackupRun
    eligible = select (λ r. ltb r.started_at cutoff) (drop min_retained ordered)

    after : List BackupRun
    after = (prune deletes now eligible 0 runs).1

    Fate : BackupRun → Type 0
    Fate r =
        Memᴰ r after
        ⊎ ((is_live r ≡ true)
            × (ltb r.started_at cutoff ≡ true)
            × All (λ k. r.started_at ≤ k.started_at) kept)

    is_member : {r : BackupRun} → Memᴰ r ordered → Memᴰ r runs × (is_live r ≡ true)
    is_member {r} m =
        All-mem (λ z. Memᴰ z runs × (is_live z ≡ true)) ordered m
          (All-latest_first (λ z. Memᴰ z runs × (is_live z ≡ true)) (select is_live runs)
            (All-of_mem (λ z. Memᴰ z runs × (is_live z ≡ true)) (select is_live runs)
              (λ z n. select-mem is_live runs n)))

    stays : (r : BackupRun) → Memᴰ r kept → Memᴰ r after
    stays r m =
        prune_keeps deletes now eligible runs 0
          (All-select (IsOther r) (λ z. ltb z.started_at cutoff) (drop min_retained ordered)
            (All-mem (λ a. All (IsOther a) (drop min_retained ordered)) kept m
              (Apart-split IsOther min_retained ordered (
                latest_first-Apart (select is_live runs)
                  (Apart-select IsOther is_live runs apart)))))
          (is_member (take-mem min_retained ordered m)).0

    same_row : {r s : BackupRun} → Memᴰ r runs → Memᴰ s runs → (s.id == r.id) ≡ true → s ≡ r
    same_row {r} {s} m n e = elim (Apart-mem IsOther runs apart n m) [
      | inl same ↦ same
      | inr (inl differs) ↦ absurd (false≢true (sym differs ∙ e))
      | inr (inr differs) ↦ ground (arith, differs, e)
    ]

    is_pruned : (s : BackupRun) → Memᴰ s eligible → Fate s
    is_pruned s m =
        let (n, old) = select-mem (λ z. ltb z.started_at cutoff) (drop min_retained ordered) m in
        inr (
          (is_member (drop-mem min_retained ordered n)).1,
          old,
          All-of_mem (λ k. s.started_at ≤ k.started_at) kept
              (λ k l. All-mem (IsLater k) (drop min_retained ordered) n (
                All-mem (λ a. All (IsLater a) (drop min_retained ordered)) kept l
                  (Apart-split IsLater min_retained ordered
                    (latest_first-sorted (select is_live runs))))),
        )

    fate : (r : BackupRun) → Memᴰ r runs → Fate r
    fate r m = elim (Option-cases (find_first (has_run_id r.id) eligible)) [
      | inl missing ↦ inl (
          prune_keeps deletes now eligible runs 0
            (All-map (λ z. (z.id == r.id) ≡ false) (IsOther r) eligible (λ z e. ground (arith, e))
              (find_first-eq-none (has_run_id r.id) eligible missing))
            m)
      | inr (s, found) ↦
          let n = find_first-mem (has_run_id r.id) eligible found in
          let (l, _) = select-mem (λ z. ltb z.started_at cutoff) (drop min_retained ordered) n in
          let (_, e) =
            All-find_first (λ _. Unit {0}) (has_run_id r.id) eligible
              (All-of_mem (λ _. Unit {0}) eligible (λ z k. tt)) found in
          subst Fate (same_row m (is_member (drop-mem min_retained ordered l)).0 e) (is_pruned s n)
    ]
