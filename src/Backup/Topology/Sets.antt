-- ===== src/Backup/Topology/Sets.antt =====
-- Membership in the lists that stand for sets, and the order that edges ask of tables.
use mathlib.Core.List.{Memᴰ}
use mathlib.Core.Bool.{false≢true}
use mathlib.Core.Path.{subst}
use biz_pilot_ai.Prelude.{
  select, ℕ, suc, ◌+◌, ◌≡◌, ◌∙◌, refl, sym, ap, Bool, true, false, not, ◌&&◌, ◌||◌, ◌==◌, ==_iff,
  ==_refl, List, [], ◌∷◌, ◌++◌, length, All, inl, inr, Bool-cases, arith,
}
use biz_pilot_ai.Backup.Topology.{FkEdge, contains, distinct, insert_sorted, sort, deps_meet}

pub contains-append :
    (x : ℕ) (xs ys : List ℕ) → contains x (xs ++ ys) ≡ (contains x xs || contains x ys)
contains-append x [] ys = refl
contains-append x (y ∷ xs) ys = ground (arith, contains-append x xs ys)

contains-insert_sorted :
    (x y : ℕ) (ys : List ℕ) → contains x (insert_sorted y ys) ≡ (y == x || contains x ys)
contains-insert_sorted x y [] = refl
contains-insert_sorted x y (z ∷ zs) = ground (arith, contains-insert_sorted x y zs)

pub contains-sort : (x : ℕ) (xs : List ℕ) → contains x (sort xs) ≡ contains x xs
contains-sort x [] = refl
contains-sort x (y ∷ ys) =
    contains-insert_sorted x y (sort ys) ∙ ap (λ b. y == x || b) (contains-sort x ys)

pub contains-select :
    (p : ℕ → Bool) (x : ℕ) (xs : List ℕ) → contains x (select p xs) ≡ (contains x xs && p x)
contains-select p x [] = refl
contains-select p x (y ∷ ys) = elim (Bool-cases (y == x)) [
  | inl e ↦ let same : y ≡ x = (==_iff y x).0 e in rw same (ground (arith, contains-select p x ys))
  | inr e ↦ ground (arith, contains-select p x ys)
]

pub contains-distinct : (x : ℕ) (xs : List ℕ) → contains x (distinct xs) ≡ contains x xs
contains-distinct x [] = refl
contains-distinct x (y ∷ ys) =
    ground (arith, contains-select (λ z. not (z == y)) x (distinct ys), contains-distinct x ys)

length-insert_sorted : (x : ℕ) (xs : List ℕ) → length (insert_sorted x xs) ≡ suc (length xs)
length-insert_sorted x [] = refl
length-insert_sorted x (y ∷ ys) = ground (arith, length-insert_sorted x ys)

pub length-sort : (xs : List ℕ) → length (sort xs) ≡ length xs
length-sort [] = refl
length-sort (x ∷ xs) = omega (arith, length-insert_sorted x (sort xs), length-sort xs)

pub length-select :
    (p : ℕ → Bool) (xs : List ℕ)
    → length (select p xs) + length (select (λ x. not (p x)) xs) ≡ length xs
length-select p [] = refl
length-select p (x ∷ xs) = ground (arith, length-select p xs)

-- The members of a set.
pub All-contains {ℓ} :
    (P : ℕ → Type ℓ) (xs : List ℕ) → ((x : ℕ) → contains x xs ≡ true → P x) → All P xs
All-contains P [] f = tt
All-contains P (x ∷ xs) f = (f x (rw (==_refl x)), All-contains P xs (λ y m. f y (ground arith)))

module _ (p q : ℕ → Bool) (t : ℕ) where
  pub deps_meet_mono :
      (edges : List FkEdge)
      → ((d : ℕ) → p d ≡ true → q d ≡ true)
      → deps_meet p t edges ≡ true
      → deps_meet q t edges ≡ true
  unfolding deps_meet
  deps_meet_mono [] f h = refl
  deps_meet_mono (e ∷ es) f h = ground (arith, f e.depends_on, deps_meet_mono es f)

-- What a test of dependencies says, as facts on the edges.
pub deps_meet-All :
    (p : ℕ → Bool) (t : ℕ) (edges : List FkEdge)
    → deps_meet p t edges ≡ true
    → All (λ e. e.table ≡ t → p e.depends_on ≡ true) edges
unfolding deps_meet
deps_meet-All p t [] h = tt
deps_meet-All p t (e ∷ es) h = ((λ same. ground arith), deps_meet-All p t es (ground arith))

-- An edge of the table that fails the test.
pub deps_meet_fails :
    (p : ℕ → Bool) (t : ℕ) (edges : List FkEdge)
    → deps_meet p t edges ≡ false
    → (e : FkEdge) × Memᴰ e edges × (e.table ≡ t) × (p e.depends_on ≡ false)
unfolding deps_meet
deps_meet_fails p t [] h = cc
deps_meet_fails p t (e ∷ es) h = elim (Bool-cases (not (e.table == t) || p e.depends_on)) [
  | inl holds ↦
      let (f, m, same, fails) = deps_meet_fails p t es (ground arith) in
      (f, Memᴰ.tail m, same, fails)
  | inr fails ↦ (e, Memᴰ.head refl, ground arith, ground arith)
]

-- A member differs from what is not one.
pub contains_differs :
    (x y : ℕ) (xs : List ℕ) → contains x xs ≡ false → contains y xs ≡ true → (x == y) ≡ false
contains_differs x y xs outside within = elim (Bool-cases (x == y)) [
  | inl e ↦
      absurd (
        false≢true
          (sym outside ∙ subst (λ z. contains z xs ≡ true) (sym ((==_iff x y).0 e)) within))
  | inr n ↦ n
]

pub contains-empty : (x : ℕ) (xs : List ℕ) → length xs ≡ 0 → contains x xs ≡ false
contains-empty x [] e = refl
contains-empty x (y ∷ ys) e = ground (arith, e)

pub All-contained {ℓ} :
    (P : ℕ → Type ℓ) (x : ℕ) (xs : List ℕ) → All P xs → contains x xs ≡ true → P x
All-contained P x [] h m = absurd (false≢true m)
All-contained P x (y ∷ ys) h m = elim (Bool-cases (y == x)) [
  | inl e ↦ subst P ((==_iff y x).0 e) h.0
  | inr n ↦ All-contained P x ys h.1 (ground arith)
]
