-- ===== src/Backup/Runs/Guard.antt =====
-- What `guardAgainstConcurrentBackup` of backend/src/modules/backup/backup.service.ts lets pass.
use mathlib.Core.Path.{subst, ap}
use mathlib.Core.Bool.{false≢true}
use mathlib.Core.List.{Memᴰ}
use biz_pilot_ai.Prelude.{
  select-mem, mem-select, ℕ, ◌≡◌, ◌-◌, ◌*◌, ◌∙◌, sym, refl, ◌⊎◌, inl, inr, true, false, ◌==◌, ltb,
  List, [], ◌∷◌, All, All-map, All-mem, All-of_mem, Apart, Apart-mem, Bool-cases, mem-update_many,
  update_many, ==_iff, arith,
}
use biz_pilot_ai.Errors.{plain_fault}
use biz_pilot_ai.Effects.{ok, err}
use biz_pilot_ai.Backup.Runs.{
  BackupRun, is_running, has_run_id, abandon, runs_in_progress, reap,
  guard_against_concurrent_backup,
}

module _ (cutoff now : ℕ) where
  abandoned : BackupRun → List BackupRun → List BackupRun
  abandoned r runs = update_many (has_run_id r.id) (abandon now) runs

  reap_stale :
      (r : BackupRun) (rs runs : List BackupRun)
      → ltb r.started_at cutoff ≡ true
      → reap cutoff now (r ∷ rs) runs ≡ reap cutoff now rs (abandoned r runs)
  unfolding reap abandoned
  reap_stale r rs runs e = rw (e, reap) refl

  reap_live :
      (r : BackupRun) (rs runs : List BackupRun)
      → ltb r.started_at cutoff ≡ false
      → reap cutoff now (r ∷ rs) runs ≡ (err plain_fault, runs)
  unfolding reap
  reap_live r rs runs e = rw (e, reap) refl

  -- A row is settled, or one of those that are still to be looked at.
  IsCovered : List BackupRun → BackupRun → Type 0
  IsCovered rs r = (is_running r.status ≡ false) ⊎ ((s : BackupRun) × Memᴰ s rs × (r.id ≡ s.id))

  IsCovered-next :
      (r : BackupRun) (rs runs : List BackupRun)
      → All (IsCovered (r ∷ rs)) runs
      → All (IsCovered rs) (abandoned r runs)
  unfolding IsCovered abandoned
  IsCovered-next r rs [] h = tt
  IsCovered-next r rs (c ∷ cs) h = elim (Bool-cases (c.id == r.id)) [
    | inl same ↦ rw same (inl refl, IsCovered-next r rs cs h.1)
    | inr differs ↦ rw differs (still h.0 differs, IsCovered-next r rs cs h.1)
  ]
    where
      still : IsCovered (r ∷ rs) c → (c.id == r.id) ≡ false → IsCovered rs c
      still (inl settled) n = inl settled
      still (inr (s, (Memᴰ.head e), same)) n =
          absurd (false≢true (sym n ∙ (==_iff c.id r.id).1 (same ∙ ap (λ z. z.id) e)))
      still (inr (s, (Memᴰ.tail m), same)) n = inr (s, m, same)

  reap_lem :
      (rs runs : List BackupRun)
      → All (IsCovered rs) runs
      → ((after : List BackupRun) × (reap cutoff now rs runs ≡ (ok tt, after))
          × All (λ r. is_running r.status ≡ false) after
          × All (λ r. ltb r.started_at cutoff ≡ true) rs)
        ⊎ ((after : List BackupRun) × ((r : BackupRun) × (reap cutoff now rs runs
                ≡ (err plain_fault, after))
              × Memᴰ r rs
              × (ltb r.started_at cutoff ≡ false)))
  unfolding reap IsCovered
  reap_lem [] runs h =
      inl (runs, refl, All-map (IsCovered []) (λ r. is_running r.status ≡ false) runs settled h, tt)
    where
      settled : (r : BackupRun) → IsCovered [] r → is_running r.status ≡ false
      settled r (inl e) = e
      settled r (inr (s, m, _)) = elim m [ ]
  reap_lem (r ∷ rs) runs h = elim (Bool-cases (ltb r.started_at cutoff)) [
    | inl stale ↦
        rw (reap_stale r rs runs stale)
          (elim (reap_lem rs (abandoned r runs) (IsCovered-next r rs runs h)) [
            | inl (after, e, settled, all) ↦ inl (after, e, settled, (stale, all))
            | inr (after, (s, e, m, fresh)) ↦ inr (after, (s, e, Memᴰ.tail m, fresh))
          ])
    | inr fresh ↦ inr (runs, (r, reap_live r rs runs fresh, Memᴰ.head refl, fresh))
  ]

  -- A row that no reaped row shares its identifier with stays.
  reap_keeps :
      (rs runs : List BackupRun) {c : BackupRun}
      → All (λ r. (c.id == r.id) ≡ false) rs
      → Memᴰ c runs
      → Memᴰ c (reap cutoff now rs runs).1
  unfolding reap abandoned
  reap_keeps [] runs h m = m
  reap_keeps (r ∷ rs) runs h m = elim (Bool-cases (ltb r.started_at cutoff)) [
    | inl stale ↦ rw (reap_stale r rs runs stale) (
        reap_keeps rs (abandoned r runs) h.1
          (mem-update_many (has_run_id r.id) (abandon now) runs m h.0))
    | inr fresh ↦ rw (reap_live r rs runs fresh) m
  ]

-- Where identifiers are unique, the guard returns only where every running row was begun before the
-- cutoff: no row is running then, and every row that was not running stays. Where it throws, a row
-- that was begun since the cutoff is running.
pub guard_against_concurrent_backup_lem :
    (stale_minutes now : ℕ) (runs : List BackupRun)
    → Apart (λ a b. (a.id == b.id) ≡ false) runs
    → ((after : List BackupRun) × (guard_against_concurrent_backup stale_minutes now runs
          ≡ (ok tt, after))
        × All (λ r. is_running r.status ≡ false) after
        × All
            (λ r.
              ((is_running r.status ≡ true)
                × (ltb r.started_at (now - stale_minutes * 60000) ≡ true))
              ⊎ ((is_running r.status ≡ false) × Memᴰ r after))
            runs)
      ⊎ ((after : List BackupRun) × ((r : BackupRun) × (guard_against_concurrent_backup
                stale_minutes now runs
              ≡ (err plain_fault, after))
            × Memᴰ r runs
            × (is_running r.status ≡ true)
            × (ltb r.started_at (now - stale_minutes * 60000) ≡ false)))
unfolding guard_against_concurrent_backup IsCovered
guard_against_concurrent_backup_lem stale_minutes now runs apart =
    elim (reap_lem cutoff now found runs covered) [
      | inl (after, e, settled, stale) ↦ inl (
        after,
        e,
        settled,
        All-of_mem
            (λ r.
              ((is_running r.status ≡ true) × (ltb r.started_at cutoff ≡ true))
              ⊎ ((is_running r.status ≡ false) × Memᴰ r after))
            runs
            (λ r m. elim (Bool-cases (is_running r.status)) [
              | inl on ↦ inl (
                on,
                All-mem (λ z. ltb z.started_at cutoff ≡ true) found
                    (mem-select (λ z. is_running z.status) runs m on) stale,
              )
              | inr off ↦ inr (
                off,
                subst (λ out. Memᴰ r out.1) e (reap_keeps cutoff now found runs (others m off) m),
              )
            ]),
      )
      | inr (after, (r, e, m, fresh)) ↦
          let (within, on) = select-mem (λ z. is_running z.status) runs m in
          inr (after, (r, e, within, on, fresh))
    ]
  where
    cutoff : ℕ
    cutoff = now - stale_minutes * 60000

    found : List BackupRun
    found = runs_in_progress runs

    covered : All (IsCovered cutoff now found) runs
    covered = All-of_mem (IsCovered cutoff now found) runs (λ r m.
        elim (Bool-cases (is_running r.status)) [
          | inl on ↦ inr (r, mem-select (λ z. is_running z.status) runs m on, refl)
          | inr off ↦ inl off
        ])

    others :
        {c : BackupRun}
        → Memᴰ c runs
        → is_running c.status ≡ false
        → All (λ r. (c.id == r.id) ≡ false) found
    others {c} m off =
        All-of_mem (λ r. (c.id == r.id) ≡ false) found
          (λ r n.
            let (within, on) = select-mem (λ z. is_running z.status) runs n in
            elim (Apart-mem (λ a b. (a.id == b.id) ≡ false) runs apart m within) [
              | inl same ↦
                  absurd
                    (false≢true (sym off ∙ subst (λ z. is_running z.status ≡ true) (sym same) on))
              | inr (inl differs) ↦ differs
              | inr (inr differs) ↦ ground (arith, differs)
            ])
