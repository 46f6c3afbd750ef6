-- ===== src/Backup/Topology/Insertion.antt =====
-- Orders in which the tables of a backup can be inserted:
-- backend/src/modules/backup/backup-core.ts.
use mathlib.Core.Path.{subst}
use mathlib.Core.Bool.{false≢true}
use mathlib.Core.List.{append_assoc, append-nil}
use biz_pilot_ai.Prelude.{
  ℕ, ◌≡◌, ◌≢◌, refl, sym, Bool, true, false, not, ◌||◌, List, [], ◌∷◌, ◌++◌, length, All, All-map,
  inl, inr, ◌⊎◌, arith,
}
use biz_pilot_ai.Backup.Topology.{FkEdge, contains, distinct, is_ready}
use biz_pilot_ai.Backup.Topology.Sets.{contains-append, deps_meet_mono, deps_meet-All}

-- The tables in this order, of which each has the tables it refers to placed before it.
unfoldable pub InOrder : List ℕ → List FkEdge → List ℕ → List ℕ → Type 0
InOrder tables edges placed [] = Unit
InOrder tables edges placed (t ∷ ts) =
    All
      (λ e.
        (contains e.depends_on placed ≡ true)
        ⊎ ((e.table ≢ t) ⊎ (contains e.depends_on tables ≡ false)))
      edges
    × InOrder tables edges (placed ++ t ∷ []) ts

-- An order in which rows can be inserted: each table once, after those it refers to.
unfoldable pub IsInsertionOrder : List ℕ → List FkEdge → List ℕ → Type 0
IsInsertionOrder tables edges order =
    ((t : ℕ) → contains t order ≡ contains t tables)
    × (length order ≡ length (distinct tables))
    × InOrder tables edges [] order

pub is_insertion_order :
    (tables : List ℕ) (edges : List FkEdge) (order : List ℕ)
    → ((t : ℕ) → contains t order ≡ contains t tables)
    → length order ≡ length (distinct tables)
    → InOrder tables edges [] order
    → IsInsertionOrder tables edges order
unfolding IsInsertionOrder
is_insertion_order tables edges order same size in_order = (same, size, in_order)

module _ (tables : List ℕ) (edges : List FkEdge) where
  pub InOrder-nil : InOrder tables edges [] []
  unfolding InOrder
  InOrder-nil = tt

  pub InOrder-append :
      (placed xs ys : List ℕ)
      → InOrder tables edges placed xs
      → InOrder tables edges (placed ++ xs) ys
      → InOrder tables edges placed (xs ++ ys)
  unfolding InOrder
  InOrder-append placed [] ys h k = subst (λ zs. InOrder tables edges zs ys) (append-nil placed) k
  InOrder-append placed (x ∷ xs) ys h k = (
    h.0,
    InOrder-append (placed ++ x ∷ []) xs ys h.1
        (subst (λ zs. InOrder tables edges zs ys) (sym (append_assoc placed (x ∷ []) xs)) k),
  )

  early :
      (a b : ℕ) (known placed : Bool)
      → (a ≡ b → (not known || placed) ≡ true)
      → (placed ≡ true) ⊎ ((a ≢ b) ⊎ (known ≡ false))
  early a b known true f = inl refl
  early a b false false f = inr (inr refl)
  early a b true false f = inr (inl (λ e. false≢true (f e)))

  -- Tables that are ready together can be placed in any order.
  pub InOrder-ready :
      (placed xs : List ℕ)
      → All (λ t. is_ready tables edges placed t ≡ true) xs
      → InOrder tables edges placed xs
  unfolding InOrder
  InOrder-ready placed [] h = tt
  InOrder-ready placed (x ∷ xs) h = (
    All-map
        (λ e.
          e.table ≡ x → (not (contains e.depends_on tables) || contains e.depends_on placed) ≡ true)
        (λ e.
          (contains e.depends_on placed ≡ true)
          ⊎ ((e.table ≢ x) ⊎ (contains e.depends_on tables ≡ false)))
        edges
        (λ e f. early e.table x (contains e.depends_on tables) (contains e.depends_on placed) f)
        (deps_meet-All (λ d. not (contains d tables) || contains d placed) x edges h.0),
    InOrder-ready (placed ++ x ∷ []) xs (
        All-map (λ t. is_ready tables edges placed t ≡ true)
          (λ t. is_ready tables edges (placed ++ x ∷ []) t ≡ true) xs
          (λ t.
            deps_meet_mono (λ d. not (contains d tables) || contains d placed)
              (λ d. not (contains d tables) || contains d (placed ++ x ∷ [])) t edges
              (λ d e. ground (arith, contains-append d placed (x ∷ []))))
          h.1),
  )
