-- ===== src/Backup/Topology.antt =====
-- The graph of foreign keys: `topologicalSort` and `breakCycles` of
-- backend/src/modules/backup/backup-core.ts. Tables are numbered in the order in which `sort` puts
-- their names, and columns are numbers. A `Set` is the list of its members in order of insertion.
pub mod Sets
pub mod Insertion
pub mod Deadlock
pub mod Order
pub mod Passes
pub mod Breaking
use biz_pilot_ai.Prelude.{
  select, ℕ, zero, suc, Bool, true, false, not, ◌&&◌, ◌||◌, ◌==◌, leb, if◌then◌else◌, List, [], ◌∷◌,
  ◌++◌, length, Option, none, some, find_first,
}
use biz_pilot_ai.Errors.{plain_fault}
use biz_pilot_ai.Effects.{Result, ok, err}

pub record FkEdge : Type 0 where
  pub table : ℕ
  pub column : ℕ
  pub depends_on : ℕ
  pub nullable : Bool

abbrev pub contains : ℕ → List ℕ → Bool
contains x [] = false
contains x (y ∷ ys) = y == x || contains x ys

abbrev pub every {ℓ} : {A : Type ℓ} → (A → Bool) → List A → Bool
every p [] = true
every p (x ∷ xs) = p x && every p xs

-- `new Set(tables)`.
abbrev pub distinct : List ℕ → List ℕ
distinct [] = []
distinct (x ∷ xs) = x ∷ select (λ y. not (y == x)) (distinct xs)

abbrev pub insert_sorted : ℕ → List ℕ → List ℕ
insert_sorted x [] = x ∷ []
insert_sorted x (y ∷ ys) = let rest = insert_sorted x ys in if leb x y then x ∷ y ∷ ys else y ∷ rest

-- `ready.sort()`.
abbrev pub sort : List ℕ → List ℕ
sort [] = []
sort (x ∷ xs) = insert_sorted x (sort xs)

-- Every table that the table refers to by one of the edges meets the condition.
unfoldable pub deps_meet : (ℕ → Bool) → ℕ → List FkEdge → Bool
deps_meet p t edges = every (λ e. not (e.table == t) || p e.depends_on) edges

-- `topologicalSort` passes over a table outside the graph.
abbrev pub is_ready : List ℕ → List FkEdge → List ℕ → ℕ → Bool
is_ready tables edges sorted t =
    deps_meet (λ d. not (contains d tables) || contains d sorted) t edges

-- The rounds of `topologicalSort`, of which each places a table at least: as many as there are
-- tables are enough.
unfoldable pub sort_rounds : ℕ → List ℕ → List FkEdge → List ℕ → List ℕ → Result (List ℕ)
sort_rounds fuel tables edges sorted [] = ok sorted
sort_rounds zero tables edges sorted (t ∷ ts) = err plain_fault
sort_rounds (suc fuel) tables edges sorted (t ∷ ts) =
    let remaining = t ∷ ts in
    let ready = select (is_ready tables edges sorted) remaining in
    let rest =
      sort_rounds fuel tables edges (sorted ++ sort ready)
        (select (λ u. not (is_ready tables edges sorted u)) remaining) in
    if 0 == length ready then err plain_fault else rest

unfoldable pub topological_sort : List ℕ → List FkEdge → Result (List ℕ)
unfolding sort_rounds
topological_sort tables edges =
    sort_rounds (length (distinct tables)) tables edges [] (distinct tables)

-- One pass of `stuckSet` over the tables that remain: what is placed counts at once.
abbrev pub is_placeable : List FkEdge → List ℕ → ℕ → Bool
is_placeable edges sorted t = deps_meet (λ d. contains d sorted) t edges

unfoldable pub sweep : List FkEdge → List ℕ → List ℕ → List ℕ × List ℕ
sweep edges sorted [] = (sorted, [])
sweep edges sorted (t ∷ ts) = elim (is_placeable edges sorted t) [
  | true ↦ sweep edges (sorted ++ t ∷ []) ts
  | false ↦ let (placed, rest) = sweep edges sorted ts in (placed, t ∷ rest)
]

-- Passes until one makes no progress; as many as there are tables are enough.
unfoldable pub sweeps : ℕ → List FkEdge → List ℕ → List ℕ → List ℕ × List ℕ
unfolding sweep
sweeps zero edges sorted remaining = (sorted, remaining)
sweeps (suc fuel) edges sorted remaining =
    let (placed, rest) = sweep edges sorted remaining in
    let further = sweeps fuel edges placed rest in
    if length rest == length remaining then (placed, rest) else further

-- The tables that are stuck, of which there may be none.
unfoldable pub stuck_set : List ℕ → List FkEdge → List ℕ
unfolding sweeps
stuck_set tables edges = (sweeps (length (distinct tables)) edges [] (distinct tables)).1

abbrev pub is_breakable : List ℕ → FkEdge → Bool
is_breakable stuck e = contains e.table stuck && (contains e.depends_on stuck && e.nullable)

-- `splice` at the index of the edge that `find` found: the first one that meets the condition.
abbrev pub remove_first : (FkEdge → Bool) → List FkEdge → List FkEdge
remove_first p [] = []
remove_first p (e ∷ es) = let rest = remove_first p es in if p e then es else e ∷ rest

abbrev pub max_rounds : ℕ
max_rounds = 20

unfoldable pub break_rounds :
    ℕ → List ℕ → List FkEdge → List FkEdge → Result (List FkEdge × List FkEdge)
unfolding stuck_set
break_rounds zero tables edges broken = ok (edges, broken)
break_rounds (suc guard) tables edges broken =
    let stuck = stuck_set tables edges in
    elim (length stuck == 0) [
      | true ↦ ok (edges, broken)
      | false ↦ elim (find_first (is_breakable stuck) edges) [
        | none ↦ err plain_fault
        | some e ↦
            break_rounds guard tables (remove_first (is_breakable stuck) edges) (broken ++ e ∷ [])
      ]
    ]

unfoldable pub break_cycles : List ℕ → List FkEdge → Result (List FkEdge × List FkEdge)
unfolding break_rounds
break_cycles tables edges = break_rounds max_rounds tables edges []
