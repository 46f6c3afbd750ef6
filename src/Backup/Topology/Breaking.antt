-- ===== src/Backup/Topology/Breaking.antt =====
-- What `breakCycles` of backend/src/modules/backup/backup-core.ts leaves for `topologicalSort`.
use mathlib.Core.Path.{subst}
use mathlib.Core.Option.{some-injective}
use mathlib.Core.List.{Memᴰ, append-nil, append_assoc, Perm, perm_middle}
use mathlib.Core.List.Perm
use biz_pilot_ai.Prelude.{
  ℕ, zero, suc, ◌+◌, ◌≡◌, ◌≢◌, ◌∙◌, refl, sym, Bool, true, false, ◌&&◌, ◌||◌, ◌==◌, ==_iff, List,
  [], ◌∷◌, ◌++◌, length, length-append, All, All-append, inl, inr, ◌⊎◌, Bool-cases, arith, none,
  some, Option-cases, find_first, All-find_first, find_first-eq-none, All-of_mem,
}
use biz_pilot_ai.Errors.{plain_fault}
use biz_pilot_ai.Effects.{Result, ok, err}
use biz_pilot_ai.Backup.Topology.{
  FkEdge, contains, distinct, is_placeable, sweeps, stuck_set, is_breakable, remove_first,
  break_rounds, break_cycles, topological_sort, max_rounds,
}
use biz_pilot_ai.Backup.Topology.Sets.{
  contains-distinct, deps_meet_fails, contains-empty, All-contained, All-contains,
}
use biz_pilot_ai.Backup.Topology.Insertion.{IsInsertionOrder, InOrder-nil, is_insertion_order}
use biz_pilot_ai.Backup.Topology.Order.{topological_sort_lem}
use biz_pilot_ai.Backup.Topology.Passes.{
  sweeps-contains, sweeps-length, sweeps-InOrder, sweeps_stall,
}

-- Tables that no edge can be broken to free: each waits for one of them or for a table outside the
-- graph, and no edge between two of them is nullable.
pub IsUnbreakable : List ℕ → List FkEdge → List ℕ → Type 0
IsUnbreakable tables edges stuck =
    (length stuck ≢ 0)
    × All
        (λ t.
          (contains t tables ≡ true)
          × ((e : FkEdge) × Memᴰ e edges
              × (e.table ≡ t)
              × ((contains e.depends_on stuck ≡ true) ⊎ (contains e.depends_on tables ≡ false))))
        stuck
    × All (λ e. (contains e.table stuck && (contains e.depends_on stuck && e.nullable)) ≡ false)
        edges

module _ (tables : List ℕ) (edges : List FkEdge) where
  placed : List ℕ
  placed = (sweeps (length (distinct tables)) edges [] (distinct tables)).0

  stuck_cover :
      (t : ℕ) → contains t tables ≡ (contains t placed || contains t (stuck_set tables edges))
  unfolding placed stuck_set
  stuck_cover t = sym (
      sweeps-contains edges t (length (distinct tables)) [] (distinct tables)
      ∙ contains-distinct t tables)

  -- Where nothing is stuck, the tables sort.
  sorts_when_none_stuck :
      length (stuck_set tables edges) ≡ 0
      → (order : List ℕ) × (topological_sort tables edges ≡ ok order)
        × IsInsertionOrder tables edges order
  unfolding placed stuck_set
  sorts_when_none_stuck e = elim (topological_sort_lem tables edges) [
    | inl sorted ↦ sorted
    | inr (throws, (stuck, d), no_order) ↦ absurd (
        no_order placed (
          is_insertion_order tables edges placed
            (λ t. ground (arith, stuck_cover t, contains-empty t (stuck_set tables edges) e))
            (omega (arith, e, sweeps-length edges (length (distinct tables)) [] (distinct tables)))
            (sweeps-InOrder edges tables (length (distinct tables)) [] (distinct tables)
              (InOrder-nil tables edges))))
  ]

  unbreakable :
      length (stuck_set tables edges) ≢ 0
      → find_first (is_breakable (stuck_set tables edges)) edges ≡ none
      → IsUnbreakable tables edges (stuck_set tables edges)
  unfolding IsUnbreakable placed stuck_set
  unbreakable some_stuck missing = (
    some_stuck,
    All-contains
        (λ t.
          (contains t tables ≡ true)
          × ((e : FkEdge) × Memᴰ e edges
              × (e.table ≡ t)
              × ((contains e.depends_on (stuck_set tables edges) ≡ true)
                  ⊎ (contains e.depends_on tables ≡ false))))
        (stuck_set tables edges) waits,
    find_first-eq-none (is_breakable (stuck_set tables edges)) edges missing,
  )
    where
      waits :
          (t : ℕ)
          → contains t (stuck_set tables edges) ≡ true
          → (contains t tables ≡ true)
            × ((e : FkEdge) × Memᴰ e edges
                × (e.table ≡ t)
                × ((contains e.depends_on (stuck_set tables edges) ≡ true)
                    ⊎ (contains e.depends_on tables ≡ false)))
      waits t m =
          let unready : is_placeable edges placed t ≡ false =
            All-contained (λ u. is_placeable edges placed u ≡ false) t (stuck_set tables edges)
              (sweeps_stall edges (length (distinct tables)) [] (distinct tables) (omega arith))
              m in
          let (e, mem, same, late) = deps_meet_fails (λ d. contains d placed) t edges unready in
          (
            ground (arith, stuck_cover t, m),
            (
              e,
              mem,
              same,
              elim (Bool-cases (contains e.depends_on tables)) [
                | inl inside ↦ inl (ground (arith, late, stuck_cover e.depends_on))
                | inr outside ↦ inr outside
              ],
            ),
          )

remove_first_perm :
    (p : FkEdge → Bool) (edges : List FkEdge) {e : FkEdge}
    → find_first p edges ≡ some e
    → Perm (e ∷ remove_first p edges) edges
remove_first_perm p [] found = cc
remove_first_perm p (x ∷ xs) {e} found = elim (Bool-cases (p x)) [
  | inl t ↦ rw t (subst (λ z. Perm (z ∷ xs) (x ∷ xs)) (some-injective x e (rw t at found)) Perm.rfl)
  | inr f ↦ rw f (
      Perm.trans (Perm.swap x e (remove_first p xs))
        (Perm.cons x (remove_first_perm p xs (rw f at found))))
]

-- The edges are divided into those kept and those broken, of which each is nullable.
pub IsDivision : List FkEdge → List FkEdge → List FkEdge → Type 0
IsDivision edges kept broken = Perm (kept ++ broken) edges × All (λ e. e.nullable ≡ true) broken

IsDivision-start : (edges : List FkEdge) → IsDivision edges edges []
unfolding IsDivision
IsDivision-start edges = (subst (λ zs. Perm zs edges) (sym (append-nil edges)) Perm.rfl, tt)

IsDivision-one :
    (edges kept broken : List FkEdge) (stuck : List ℕ) {e : FkEdge}
    → IsDivision edges kept broken
    → find_first (is_breakable stuck) kept ≡ some e
    → IsDivision edges (remove_first (is_breakable stuck) kept) (broken ++ e ∷ [])
unfolding IsDivision
IsDivision-one edges kept broken stuck {e} (same, nullable) found =
    let rest = remove_first (is_breakable stuck) kept in
    let moved : Perm (rest ++ (broken ++ e ∷ [])) (e ∷ (rest ++ broken)) =
      subst (λ zs. Perm zs (e ∷ (rest ++ broken))) (append_assoc rest broken (e ∷ []))
        (Perm.trans (perm_middle (rest ++ broken) []) (
          Perm.cons e (
            subst (λ zs. Perm zs (rest ++ broken)) (sym (append-nil (rest ++ broken)))
              Perm.rfl))) in
    let back : Perm (e ∷ (rest ++ broken)) (kept ++ broken) =
      Perm.append_right broken (remove_first_perm (is_breakable stuck) kept found) in
    let (_, fits) =
      All-find_first (λ _. Unit {0}) (is_breakable stuck) kept
        (All-of_mem (λ _. Unit {0}) kept (λ x m. tt)) found in
    (
      Perm.trans moved (Perm.trans back same),
      All-append (λ f. f.nullable ≡ true) broken (e ∷ []) nullable (ground (arith, fits), tt),
    )

-- What the tables and edges come to.
pub IsBroken : List ℕ → List FkEdge → ℕ → Result (List FkEdge × List FkEdge) → Type 0
IsBroken tables edges most outcome =
    ((kept : List FkEdge) × ((broken : List FkEdge) × (outcome ≡ ok (kept, broken))
        × IsDivision edges kept broken
        × (((order : List ℕ) × (topological_sort tables kept ≡ ok order)
              × IsInsertionOrder tables kept order)
            ⊎ (length broken ≡ most))))
    ⊎ ((outcome ≡ err plain_fault)
        × ((kept : List FkEdge) × ((broken : List FkEdge) × IsDivision edges kept broken
              × ((stuck : List ℕ) × IsUnbreakable tables kept stuck))))

module _ (guard : ℕ) (tables : List ℕ) (kept broken : List FkEdge) where
  round_free :
      (length (stuck_set tables kept) == 0) ≡ true
      → break_rounds (suc guard) tables kept broken ≡ ok (kept, broken)
  unfolding break_rounds
  round_free free = rw (free, break_rounds) refl

  round_blocked :
      (length (stuck_set tables kept) == 0) ≡ false
      → find_first (is_breakable (stuck_set tables kept)) kept ≡ none
      → break_rounds (suc guard) tables kept broken ≡ err plain_fault
  unfolding break_rounds
  round_blocked blocked missing = rw (blocked, missing, break_rounds) refl

  round_breaks :
      {e : FkEdge}
      → (length (stuck_set tables kept) == 0) ≡ false
      → find_first (is_breakable (stuck_set tables kept)) kept ≡ some e
      → break_rounds (suc guard) tables kept broken
        ≡ break_rounds guard tables
            (remove_first (is_breakable (stuck_set tables kept)) kept)
            (broken ++ e ∷ [])
  unfolding break_rounds
  round_breaks blocked found = rw (blocked, found, break_rounds) refl

break_rounds_lem :
    (tables : List ℕ) (edges : List FkEdge) (guard : ℕ) (kept broken : List FkEdge)
    → IsDivision edges kept broken
    → IsBroken tables edges (guard + length broken) (break_rounds guard tables kept broken)
unfolding break_rounds IsBroken
break_rounds_lem tables edges zero kept broken d = inl (kept, (broken, refl, d, inr (omega arith)))
break_rounds_lem tables edges (suc guard) kept broken d = elim (Bool-cases (length stuck == 0)) [
  | inl free ↦ rw (round_free guard tables kept broken free) (
      inl (
        kept,
        (
          broken,
          refl,
          d,
          inl (sorts_when_none_stuck tables kept ((==_iff (length stuck) 0).0 free)),
        ),
      ))
  | inr blocked ↦ elim (Option-cases (find_first (is_breakable stuck) kept)) [
    | inl missing ↦ rw (round_blocked guard tables kept broken blocked missing) (
        inr (
          refl,
          (
            kept,
            (broken, d, (stuck, unbreakable tables kept (λ z. ground (arith, blocked)) missing)),
          ),
        ))
    | inr (e, found) ↦ rw (round_breaks guard tables kept broken blocked found) (
        subst
          (λ n.
            IsBroken tables edges n (
              break_rounds guard tables (remove_first (is_breakable stuck) kept)
                (broken ++ e ∷ [])))
          (omega (arith, length-append broken (e ∷ [])))
          (break_rounds_lem tables edges guard (remove_first (is_breakable stuck) kept)
            (broken ++ e ∷ []) (IsDivision-one edges kept broken stuck d found)))
  ]
]
  where
    stuck : List ℕ
    stuck = stuck_set tables kept

-- The edges are divided into kept and broken ones, of which each is nullable, and the tables then
-- sort by the kept ones into an order for insertion, unless twenty edges were broken. Where it
-- throws, some tables wait for one another and for unknown ones, and no edge among them is nullable.
pub break_cycles_lem :
    (tables : List ℕ) (edges : List FkEdge)
    → IsBroken tables edges max_rounds (break_cycles tables edges)
unfolding break_cycles
break_cycles_lem tables edges =
    break_rounds_lem tables edges max_rounds edges [] (IsDivision-start edges)
