-- ===== src/Team/Counting.antt =====
-- Counts of rows over the updates of backend/src/modules/team/invitation.service.ts.
use mathlib.Core.Path.{subst}
use mathlib.Core.Bool.{false≢true}
use mathlib.Core.List.{Memᴰ}
use biz_pilot_ai.Prelude.{
  suc, ◌≡◌, ◌≤◌, ◌∙◌, sym, inl, inr, Bool, true, false, List, [], ◌∷◌, ◌++◌, update_many,
  update_many-none, count, All-map, Apart, Bool-cases, arith,
}

module _ {A : Type 0} (p q : A → Bool) (f : A → A) where
  -- No row comes to count by the update.
  pub count_shrinks :
      (xs : List A)
      → ((x : A) → q x ≡ true → p (f x) ≡ true → p x ≡ true)
      → count p (update_many q f xs) ≤ count p xs
  count_shrinks [] h = omega arith
  count_shrinks (x ∷ xs) h = elim (Bool-cases (q x)) [
    | inl hit ↦ rw hit (ground (arith, h x hit, count_shrinks xs h))
    | inr miss ↦ rw miss (ground (arith, count_shrinks xs h))
  ]

  -- The update takes a row that counts.
  pub count_loses :
      (xs : List A) {c : A}
      → Memᴰ c xs
      → q c ≡ true
      → p c ≡ true
      → ((x : A) → p (f x) ≡ false)
      → suc (count p (update_many q f xs)) ≤ count p xs
  count_loses [] m hit counts off = elim m [ ]
  count_loses (x ∷ xs) (Memᴰ.head e) hit counts off =
      rw (subst (λ z. q z ≡ true) e hit, subst (λ z. p z ≡ true) e counts, off x)
        (omega (arith, count_shrinks xs (λ y _ on. absurd (false≢true (sym (off y) ∙ on)))))
  count_loses (x ∷ xs) (Memᴰ.tail m) hit counts off = elim (Bool-cases (q x)) [
    | inl on ↦ rw (on, off x) (ground (arith, count_loses xs m hit counts off))
    | inr miss ↦ rw miss (ground (arith, count_loses xs m hit counts off))
  ]

  -- An update of one row adds one at most.
  pub count_grows :
      (xs : List A)
      → Apart (λ a b. q a ≡ true → q b ≡ false) xs
      → count p (update_many q f xs) ≤ suc (count p xs)
  count_grows [] apart = omega arith
  count_grows (x ∷ xs) apart = elim (Bool-cases (q x)) [
    | inl hit ↦
        rw
          (
            hit,
            update_many-none q f xs (
                All-map (λ y. q x ≡ true → q y ≡ false) (λ y. q y ≡ false) xs (λ y g. g hit)
                  apart.0),
          )
          (ground arith)
    | inr miss ↦ rw miss (ground (arith, count_grows xs apart.1))
  ]

  pub count-append : (xs : List A) (y : A) → count p (xs ++ y ∷ []) ≤ suc (count p xs)
  count-append [] y = ground arith
  count-append (x ∷ xs) y = ground (arith, count-append xs y)

  pub count-append_other : (xs : List A) (y : A) → p y ≡ false → count p (xs ++ y ∷ []) ≤ count p xs
  count-append_other [] y off = rw off (omega arith)
  count-append_other (x ∷ xs) y off = ground (arith, count-append_other xs y off)

pub Apart-map :
    {A : Type 0} (R S : A → A → Type 0) (xs : List A)
    → ((a b : A) → R a b → S a b)
    → Apart R xs
    → Apart S xs
Apart-map R S [] h apart = tt
Apart-map R S (x ∷ xs) h apart = (All-map (R x) (S x) xs (h x) apart.0, Apart-map R S xs h apart.1)
