-- ===== src/Backup/Topology/Passes.antt =====
-- The passes of `stuckSet` in `breakCycles` of backend/src/modules/backup/backup-core.ts.
use mathlib.Core.Path.{subst}
use biz_pilot_ai.Prelude.{
  ℕ, zero, suc, ◌+◌, ◌≤◌, ◌≡◌, ◌∙◌, refl, sym, true, false, not, ◌||◌, ◌==◌, ==_iff, List, [], ◌∷◌,
  ◌++◌, length, length-append, All, inl, inr, Bool-cases, arith,
}
use biz_pilot_ai.Backup.Topology.{FkEdge, contains, is_placeable, sweep, sweeps}
use biz_pilot_ai.Backup.Topology.Sets.{contains-append, deps_meet_mono}
use biz_pilot_ai.Backup.Topology.Insertion.{InOrder, InOrder-append, InOrder-ready}

module _ (edges : List FkEdge) where
  sweep_ready :
      (sorted : List ℕ) (u : ℕ) (us : List ℕ)
      → is_placeable edges sorted u ≡ true
      → sweep edges sorted (u ∷ us) ≡ sweep edges (sorted ++ u ∷ []) us
  unfolding sweep
  sweep_ready sorted u us ready = rw (ready, sweep) refl

  sweep_waits :
      (sorted : List ℕ) (u : ℕ) (us : List ℕ)
      → is_placeable edges sorted u ≡ false
      → sweep edges sorted (u ∷ us) ≡ ((sweep edges sorted us).0, u ∷ (sweep edges sorted us).1)
  unfolding sweep
  sweep_waits sorted u us waits = rw (waits, sweep) refl

  sweep-contains :
      (t : ℕ) (sorted remaining : List ℕ)
      → (contains t (sweep edges sorted remaining).0 || contains t (sweep edges sorted remaining).1)
        ≡ (contains t sorted || contains t remaining)
  unfolding sweep
  sweep-contains t sorted [] = refl
  sweep-contains t sorted (u ∷ us) = elim (Bool-cases (is_placeable edges sorted u)) [
    | inl ready ↦
        rw (sweep_ready sorted u us ready) (
          sweep-contains t (sorted ++ u ∷ []) us
          ∙ ground (arith, contains-append t sorted (u ∷ [])))
    | inr waits ↦ rw (sweep_waits sorted u us waits) (ground (arith, sweep-contains t sorted us))
  ]

  sweep-length :
      (sorted remaining : List ℕ)
      → length (sweep edges sorted remaining).0 + length (sweep edges sorted remaining).1
        ≡ length sorted + length remaining
  unfolding sweep
  sweep-length sorted [] = refl
  sweep-length sorted (u ∷ us) = elim (Bool-cases (is_placeable edges sorted u)) [
    | inl ready ↦
        rw (sweep_ready sorted u us ready)
          (omega (arith, sweep-length (sorted ++ u ∷ []) us, length-append sorted (u ∷ [])))
    | inr waits ↦ rw (sweep_waits sorted u us waits) (omega (arith, sweep-length sorted us))
  ]

  sweep-InOrder :
      (tables sorted remaining : List ℕ)
      → InOrder tables edges [] sorted
      → InOrder tables edges [] (sweep edges sorted remaining).0
  unfolding sweep
  sweep-InOrder tables sorted [] order = order
  sweep-InOrder tables sorted (u ∷ us) order = elim (Bool-cases (is_placeable edges sorted u)) [
    | inl ready ↦ rw (sweep_ready sorted u us ready) (
        sweep-InOrder tables (sorted ++ u ∷ []) us (
          InOrder-append tables edges [] sorted (u ∷ []) order (
            InOrder-ready tables edges sorted (u ∷ []) (
              deps_meet_mono (λ d. contains d sorted)
                  (λ d. not (contains d tables) || contains d sorted) u edges
                  (λ d e. ground (arith, e)) ready,
              tt,
            ))))
    | inr waits ↦ rw (sweep_waits sorted u us waits) (sweep-InOrder tables sorted us order)
  ]

  sweep_shrinks :
      (sorted remaining : List ℕ) → length (sweep edges sorted remaining).1 ≤ length remaining
  unfolding sweep
  sweep_shrinks sorted [] = omega arith
  sweep_shrinks sorted (u ∷ us) = elim (Bool-cases (is_placeable edges sorted u)) [
    | inl ready ↦
        rw (sweep_ready sorted u us ready) (omega (arith, sweep_shrinks (sorted ++ u ∷ []) us))
    | inr waits ↦ rw (sweep_waits sorted u us waits) (omega (arith, sweep_shrinks sorted us))
  ]

  -- A pass that places nothing leaves tables that cannot be placed.
  sweep_stalls :
      (sorted remaining : List ℕ)
      → length (sweep edges sorted remaining).1 ≡ length remaining
      → ((sweep edges sorted remaining).0 ≡ sorted)
        × All (λ t. is_placeable edges sorted t ≡ false) (sweep edges sorted remaining).1
  unfolding sweep
  sweep_stalls sorted [] same = (refl, tt)
  sweep_stalls sorted (u ∷ us) same = elim (Bool-cases (is_placeable edges sorted u)) [
    | inl ready ↦
        let short : length (sweep edges (sorted ++ u ∷ []) us).1 ≡ suc (length us) =
          rw (sweep_ready sorted u us ready) at same in
        absurd (omega (arith, sweep_shrinks (sorted ++ u ∷ []) us))
    | inr waits ↦
        let same' : suc (length (sweep edges sorted us).1) ≡ suc (length us) =
          rw (sweep_waits sorted u us waits) at same in
        let (kept, stuck) = sweep_stalls sorted us (omega arith) in
        rw (sweep_waits sorted u us waits) (kept, (waits, stuck))
  ]

  pub sweeps-contains :
      (t fuel : ℕ) (sorted remaining : List ℕ)
      → (contains t (sweeps fuel edges sorted remaining).0
          || contains t (sweeps fuel edges sorted remaining).1)
        ≡ (contains t sorted || contains t remaining)
  unfolding sweeps
  sweeps-contains t zero sorted remaining = refl
  sweeps-contains t (suc fuel) sorted remaining =
      elim (Bool-cases (length (sweep edges sorted remaining).1 == length remaining)) [
        | inl stalls ↦ rw stalls (sweep-contains t sorted remaining)
        | inr goes_on ↦ rw goes_on (
            sweeps-contains t fuel (sweep edges sorted remaining).0 (sweep edges sorted remaining).1
            ∙ sweep-contains t sorted remaining)
      ]

  pub sweeps-length :
      (fuel : ℕ) (sorted remaining : List ℕ)
      → length (sweeps fuel edges sorted remaining).0
          + length (sweeps fuel edges sorted remaining).1
        ≡ length sorted + length remaining
  unfolding sweeps
  sweeps-length zero sorted remaining = refl
  sweeps-length (suc fuel) sorted remaining =
      elim (Bool-cases (length (sweep edges sorted remaining).1 == length remaining)) [
        | inl stalls ↦ rw stalls (sweep-length sorted remaining)
        | inr goes_on ↦ rw goes_on (
            sweeps-length fuel (sweep edges sorted remaining).0 (sweep edges sorted remaining).1
            ∙ sweep-length sorted remaining)
      ]

  pub sweeps-InOrder :
      (tables : List ℕ) (fuel : ℕ) (sorted remaining : List ℕ)
      → InOrder tables edges [] sorted
      → InOrder tables edges [] (sweeps fuel edges sorted remaining).0
  unfolding sweeps
  sweeps-InOrder tables zero sorted remaining order = order
  sweeps-InOrder tables (suc fuel) sorted remaining order =
      elim (Bool-cases (length (sweep edges sorted remaining).1 == length remaining)) [
        | inl stalls ↦ rw stalls (sweep-InOrder tables sorted remaining order)
        | inr goes_on ↦ rw goes_on (
            sweeps-InOrder tables fuel (sweep edges sorted remaining).0
              (sweep edges sorted remaining).1 (sweep-InOrder tables sorted remaining order))
      ]

  -- With a pass for each table, the tables that remain cannot be placed.
  pub sweeps_stall :
      (fuel : ℕ) (sorted remaining : List ℕ)
      → length remaining ≤ fuel
      → All
          (λ t. is_placeable edges (sweeps fuel edges sorted remaining).0 t ≡ false)
          (sweeps fuel edges sorted remaining).1
  unfolding sweeps
  sweeps_stall zero sorted [] enough = tt
  sweeps_stall zero sorted (t ∷ ts) enough = absurd (omega arith)
  sweeps_stall (suc fuel) sorted remaining enough =
      elim (Bool-cases (length rest == length remaining)) [
        | inl stalls ↦
            let (kept, stuck) =
              sweep_stalls sorted remaining ((==_iff (length rest) (length remaining)).0 stalls) in
            rw stalls (
              subst (λ placed. All (λ t. is_placeable edges placed t ≡ false) rest) (sym kept)
                stuck)
        | inr goes_on ↦
            let fewer : length rest ≤ fuel =
              ground (arith, sweep_shrinks sorted remaining, goes_on) in
            rw goes_on (sweeps_stall fuel (sweep edges sorted remaining).0 rest fewer)
      ]
    where
      rest : List ℕ
      rest = (sweep edges sorted remaining).1
