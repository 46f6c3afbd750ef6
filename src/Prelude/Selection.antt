-- ===== src/Prelude/Selection.antt =====
-- Selections from a list, and members of an updated table.
use mathlib.Core.Path.{◌≡◌, refl, sym, ap, subst, ◌∙◌}
use mathlib.Core.Logic.{inl, inr}
use mathlib.Core.Bool.{Bool, true, false≢true}
use mathlib.Core.List.{List, [], ◌∷◌, ◌++◌, Memᴰ}
use biz_pilot_ai.Prelude.Tests.{if◌then◌else◌, Bool-cases, if_true, if_false}
use biz_pilot_ai.Prelude.Table.{update_many}

-- `filter`.
abbrev pub select {ℓ} : {A : Type ℓ} → (A → Bool) → List A → List A
select p [] = []
select p (x ∷ xs) = let rest = select p xs in if p x then x ∷ rest else rest

-- The members of a selection.
pub select-mem {ℓ} :
    {A : Type ℓ} (p : A → Bool) (xs : List A) {x : A}
    → Memᴰ x (select p xs)
    → Memᴰ x xs × (p x ≡ true)
select-mem p [] m = elim m [ ]
select-mem p (y ∷ ys) {x} m = elim (Bool-cases (p y)) [
  | inl t ↦ elim (subst (λ zs. Memᴰ x zs) (if_true (p y) (y ∷ select p ys) (select p ys) t) m) [
    | Memᴰ.head e ↦ (Memᴰ.head e, subst (λ z. p z ≡ true) (sym e) t)
    | Memᴰ.tail n ↦ let (k, s) = select-mem p ys n in (Memᴰ.tail k, s)
  ]
  | inr f ↦
      let (n, t) =
        select-mem p ys
          (subst (λ zs. Memᴰ x zs) (if_false (p y) (y ∷ select p ys) (select p ys) f) m) in
      (Memᴰ.tail n, t)
]

pub mem-select {ℓ} :
    {A : Type ℓ} (p : A → Bool) (xs : List A) {x : A}
    → Memᴰ x xs
    → p x ≡ true
    → Memᴰ x (select p xs)
mem-select p [] m t = elim m [ ]
mem-select p (y ∷ ys) {x} m t = elim (Bool-cases (p y)) [
  | inl e ↦
      rw e (elim m [ Memᴰ.head h ↦ Memᴰ.head h | Memᴰ.tail n ↦ Memᴰ.tail (mem-select p ys n t) ])
  | inr f ↦ rw f (elim m [
    | Memᴰ.head h ↦ absurd (false≢true (sym f ∙ subst (λ z. p z ≡ true) h t))
    | Memᴰ.tail n ↦ mem-select p ys n t
  ])
]

module _ {ℓ} {A : Type ℓ} where
  pub mem-append_last : (xs : List A) (x : A) → Memᴰ x (xs ++ x ∷ [])
  mem-append_last [] x = Memᴰ.head refl
  mem-append_last (y ∷ ys) x = Memᴰ.tail (mem-append_last ys x)

  pub mem-update_hit :
      (p : A → Bool) (f : A → A) (xs : List A) {x : A}
      → Memᴰ x xs
      → p x ≡ true
      → Memᴰ (f x) (update_many p f xs)
  mem-update_hit p f [] m e = elim m [ ]
  mem-update_hit p f (y ∷ ys) {x} (Memᴰ.head same) e =
      Memᴰ.head (ap f same ∙ sym (if_true (p y) (f y) y (subst (λ z. p z ≡ true) same e)))
  mem-update_hit p f (y ∷ ys) (Memᴰ.tail m) e = Memᴰ.tail (mem-update_hit p f ys m e)
