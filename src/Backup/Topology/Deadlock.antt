-- ===== src/Backup/Topology/Deadlock.antt =====
-- Tables that refer to each other: backend/src/modules/backup/backup-core.ts.
use mathlib.Core.Bool.{false≢true}
use mathlib.Core.List.{Memᴰ}
use biz_pilot_ai.Prelude.{
  select, ℕ, ◌≡◌, ◌≢◌, ◌∙◌, refl, sym, true, false, not, ◌||◌, ==_refl, List, [], ◌∷◌, ◌++◌, length,
  All, All-mem, inl, inr, ◌⊎◌, Bool-cases, arith,
}
use biz_pilot_ai.Backup.Topology.{FkEdge, contains, is_ready}
use biz_pilot_ai.Backup.Topology.Sets.{
  contains-append, contains-select, All-contains, All-contained, deps_meet_fails, contains_differs,
  contains-empty,
}
use biz_pilot_ai.Backup.Topology.Insertion.{InOrder, IsInsertionOrder}

-- Tables of which each refers to one of them.
unfoldable pub IsDeadlock : List ℕ → List FkEdge → List ℕ → Type 0
IsDeadlock tables edges stuck =
    (length stuck ≢ 0)
    × All
        (λ t.
          (contains t tables ≡ true)
          × ((e : FkEdge) × Memᴰ e edges × (e.table ≡ t) × (contains e.depends_on stuck ≡ true)))
        stuck

module _ (tables : List ℕ) (edges : List FkEdge) where
  pub IsDeadlock-when_none_ready :
      (sorted remaining : List ℕ)
      → ((t : ℕ) → contains t tables ≡ (contains t sorted || contains t remaining))
      → length remaining ≢ 0
      → length (select (is_ready tables edges sorted) remaining) ≡ 0
      → IsDeadlock tables edges remaining
  unfolding IsDeadlock
  IsDeadlock-when_none_ready sorted remaining cover some_left e = (
    some_left,
    All-contains
        (λ t.
          (contains t tables ≡ true)
          × ((f : FkEdge) × Memᴰ f edges
              × (f.table ≡ t)
              × (contains f.depends_on remaining ≡ true)))
        remaining
        (λ t m.
          let unready : is_ready tables edges sorted t ≡ false = ground (
            arith,
            contains-empty t (select (is_ready tables edges sorted) remaining) e,
            contains-select (is_ready tables edges sorted) t remaining,
            m,
          ) in
          let (f, mem, same, fails) =
            deps_meet_fails (λ d. not (contains d tables) || contains d sorted) t edges unready in
          (ground (arith, cover t, m), (f, mem, same, ground (arith, fails, cover f.depends_on)))),
  )

-- Tables in a deadlock are never placed.
IsDeadlock-passed_over :
    (tables : List ℕ) (edges : List FkEdge) (stuck placed order : List ℕ)
    → IsDeadlock tables edges stuck
    → ((t : ℕ) → contains t stuck ≡ true → contains t placed ≡ false)
    → InOrder tables edges placed order
    → (t : ℕ) → contains t stuck ≡ true
    → contains t order ≡ false
unfolding InOrder IsDeadlock
IsDeadlock-passed_over tables edges stuck placed [] d none_placed h t m = refl
IsDeadlock-passed_over tables edges stuck placed (x ∷ xs) d none_placed h t m =
    elim (Bool-cases (contains x stuck)) [
      | inl within ↦
          let (known, (e, mem, same, next)) = member x within in
          let early : contains e.depends_on placed ≡ true =
            elim (All-mem
              (λ f.
                (contains f.depends_on placed ≡ true)
                ⊎ ((f.table ≢ x) ⊎ (contains f.depends_on tables ≡ false)))
              edges mem h.0) [
                | inl placed_early ↦ placed_early
                | inr (inl other) ↦ absurd (other same)
                | inr (inr unknown) ↦
                    absurd (false≢true (sym unknown ∙ (member e.depends_on next).0))
              ] in
          ground (arith, early, none_placed e.depends_on next)
      | inr outside ↦ rw (contains_differs x t stuck outside m) (
          IsDeadlock-passed_over tables edges stuck (placed ++ x ∷ []) xs d
            (λ u n.
              contains-append u placed (x ∷ [])
              ∙ rw (none_placed u n, contains_differs x u stuck outside n))
            h.1 t m)
    ]
  where
    member :
        (t : ℕ)
        → contains t stuck ≡ true
        → (contains t tables ≡ true)
          × ((e : FkEdge) × Memᴰ e edges × (e.table ≡ t) × (contains e.depends_on stuck ≡ true))
    member t m =
        All-contained
          (λ u.
            (contains u tables ≡ true)
            × ((e : FkEdge) × Memᴰ e edges × (e.table ≡ u) × (contains e.depends_on stuck ≡ true)))
          t stuck d.1 m

pub IsDeadlock-no_order :
    (tables : List ℕ) (edges : List FkEdge) (stuck order : List ℕ)
    → IsDeadlock tables edges stuck
    → ¬ IsInsertionOrder tables edges order
unfolding IsDeadlock IsInsertionOrder
IsDeadlock-no_order tables edges [] order d h = absurd (d.0 refl)
IsDeadlock-no_order tables edges (t ∷ ts) order d h =
    let (known, _) = d.1.0 in
    absurd (
      false≢true (
        sym (
          IsDeadlock-passed_over tables edges (t ∷ ts) [] order d (λ u m. refl) h.2 t
            (rw (==_refl t)))
        ∙ (h.0 t ∙ known)))
