-- ===== src/Backup/Topology/Order.antt =====
-- What `topologicalSort` of backend/src/modules/backup/backup-core.ts returns, and when it throws.
use biz_pilot_ai.Prelude.{
  select, ℕ, zero, suc, ◌+◌, ◌≤◌, ◌≡◌, ◌≢◌, refl, sym, Bool, true, false, not, ◌&&◌, ◌||◌, ◌==◌,
  ==_iff, if_true, List, [], ◌∷◌, ◌++◌, length, length-append, inl, inr, ◌⊎◌, Bool-cases, arith,
}
use biz_pilot_ai.Errors.{plain_fault}
use biz_pilot_ai.Effects.{Result, ok, err}
use biz_pilot_ai.Backup.Topology.{
  FkEdge, contains, distinct, sort, is_ready, sort_rounds, topological_sort,
}
use biz_pilot_ai.Backup.Topology.Sets.{
  contains-append, contains-sort, contains-select, contains-distinct, length-sort, length-select,
  All-contains,
}
use biz_pilot_ai.Backup.Topology.Insertion.{
  InOrder, IsInsertionOrder, InOrder-nil, InOrder-append, InOrder-ready,
}
use biz_pilot_ai.Backup.Topology.Deadlock.{
  IsDeadlock, IsDeadlock-when_none_ready, IsDeadlock-no_order,
}

module _ (tables : List ℕ) (edges : List FkEdge) where
  -- What a round keeps.
  covers_next :
      (p : ℕ → Bool) (sorted remaining : List ℕ) (t : ℕ)
      → contains t tables ≡ (contains t sorted || contains t remaining)
      → contains t tables ≡ (
          contains t (sorted ++ sort (select p remaining))
          || contains t (select (λ u. not (p u)) remaining))
  covers_next p sorted remaining t cover =
      rw
        (
          contains-append t sorted (sort (select p remaining)),
          contains-sort t (select p remaining),
          contains-select p t remaining,
          contains-select (λ u. not (p u)) t remaining,
          cover,
        )
        (cases (contains t sorted) (contains t remaining) (p t))
    where
      cases : (a b c : Bool) → (a || b) ≡ ((a || (b && c)) || (b && not c))
      cases true b c = refl
      cases false true true = refl
      cases false true false = refl
      cases false false c = refl

  InOrder-next :
      (sorted remaining : List ℕ)
      → InOrder tables edges [] sorted
      → InOrder tables edges [] (sorted ++ sort (select (is_ready tables edges sorted) remaining))
  InOrder-next sorted remaining order = InOrder-append tables edges [] sorted (sort ready) order (
      InOrder-ready tables edges sorted (sort ready) (
        All-contains (λ t. is_ready tables edges sorted t ≡ true) (sort ready)
          (λ t m. ground (
            arith,
            m,
            contains-sort t ready,
            contains-select (is_ready tables edges sorted) t remaining,
          ))))
    where
      ready : List ℕ
      ready = select (is_ready tables edges sorted) remaining

  sort_rounds_lem :
      (fuel : ℕ) (sorted remaining : List ℕ)
      → ((t : ℕ) → contains t tables ≡ (contains t sorted || contains t remaining))
      → InOrder tables edges [] sorted
      → length sorted + length remaining ≡ length (distinct tables)
      → length remaining ≤ fuel
      → ((order : List ℕ) × (sort_rounds fuel tables edges sorted remaining ≡ ok order)
          × IsInsertionOrder tables edges order)
        ⊎ ((sort_rounds fuel tables edges sorted remaining ≡ err plain_fault)
            × ((stuck : List ℕ) × IsDeadlock tables edges stuck))
  unfolding sort_rounds IsInsertionOrder
  sort_rounds_lem fuel sorted [] cover order size enough =
      inl (sorted, refl, ((λ t. ground (arith, cover t)), omega (arith, size), order))
  sort_rounds_lem zero sorted (t ∷ ts) cover order size enough = absurd (omega arith)
  sort_rounds_lem (suc fuel) sorted (t ∷ ts) cover order size enough =
      elim (Bool-cases (0 == length ready)) [
        | inl none_ready ↦ inr (
          if_true (0 == length ready) (err plain_fault) next none_ready,
          (
            t ∷ ts,
            IsDeadlock-when_none_ready tables edges sorted (t ∷ ts) cover (λ e. omega arith)
                (sym ((==_iff 0 (length ready)).0 none_ready)),
          ),
        )
        | inr some_ready ↦
            let nonempty : length ready ≢ 0 = λ z. ground (arith, some_ready) in
            let parts : length ready + length rest ≡ length (t ∷ ts) =
              length-select (is_ready tables edges sorted) (t ∷ ts) in
            rw some_ready (
              sort_rounds_lem fuel (sorted ++ sort ready) rest
                (λ u. covers_next (is_ready tables edges sorted) sorted (t ∷ ts) u (cover u))
                (InOrder-next sorted (t ∷ ts) order)
                (omega (arith, size, length-append sorted (sort ready), length-sort ready, parts))
                (omega (arith, enough, parts, nonempty)))
      ]
    where
      ready : List ℕ
      ready = select (is_ready tables edges sorted) (t ∷ ts)

      rest : List ℕ
      rest = select (λ u. not (is_ready tables edges sorted u)) (t ∷ ts)

      next : Result (List ℕ)
      next = sort_rounds fuel tables edges (sorted ++ sort ready) rest

-- The order it returns has each table once and after the tables it refers to. Where it throws, some
-- tables each refer to another of them, and there is no such order.
pub topological_sort_lem :
    (tables : List ℕ) (edges : List FkEdge)
    → ((order : List ℕ) × (topological_sort tables edges ≡ ok order)
        × IsInsertionOrder tables edges order)
      ⊎ ((topological_sort tables edges ≡ err plain_fault)
          × ((stuck : List ℕ) × IsDeadlock tables edges stuck)
          × ((order : List ℕ) → ¬ IsInsertionOrder tables edges order))
unfolding topological_sort
topological_sort_lem tables edges =
    elim (sort_rounds_lem tables edges (length (distinct tables)) [] (distinct tables)
      (λ t. sym (contains-distinct t tables)) (InOrder-nil tables edges) (omega arith)
      (omega arith)) [
        | inl sorted ↦ inl sorted
        | inr (throws, (stuck, d)) ↦
            inr (throws, (stuck, d), λ order. IsDeadlock-no_order tables edges stuck order d)
      ]
