-- ===== src/Prelude/Table.antt =====
-- A database table as the list of its rows, and the statements that the services issue on it.
use Prim.Native.Nat.{ℕ, suc}
use mathlib.Core.Path.{◌≡◌, refl, sym, ◌∙◌, ap, subst}
use mathlib.Core.Logic.{◌⊎◌, inl, inr}
use mathlib.Core.Bool.{Bool, true, false, false≢true}
use mathlib.Core.Option.{Option, none, some, some-injective}
use mathlib.Core.List.{List, [], ◌∷◌, ◌++◌, Memᴰ}
use native.Mathlib.Omega.{arith}
use biz_pilot_ai.Prelude.Tests.{if◌then◌else◌, Bool-cases, Option-cases, if_true, if_false}
use biz_pilot_ai.Prelude.Lists.{length, All, All-append}

module _ {ℓ} {A : Type ℓ} where
  -- `findFirst`: the first row that meets the condition.
  abbrev pub find_first : (A → Bool) → List A → Option A
  find_first p [] = none
  find_first p (x ∷ xs) = let rest = find_first p xs in if p x then some x else rest

  -- `updateMany`: every row that meets the condition is rewritten.
  abbrev pub update_many : (A → Bool) → (A → A) → List A → List A
  update_many p f [] = []
  update_many p f (x ∷ xs) = (if p x then f x else x) ∷ update_many p f xs

  -- The `count` of an `updateMany`, and of a `count` query.
  abbrev pub count : (A → Bool) → List A → ℕ
  count p [] = 0
  count p (x ∷ xs) = let rest = count p xs in if p x then suc rest else rest

  pub All-update_many {κ} :
      (P : A → Type κ) (p : A → Bool) (f : A → A) (xs : List A)
      → ((x : A) → P x → p x ≡ true → P (f x))
      → All P xs
      → All P (update_many p f xs)
  All-update_many P p f [] keep h = tt
  All-update_many P p f (x ∷ xs) keep h = elim (Bool-cases (p x)) [
    | inl e ↦ rw e (keep x h.0 e, All-update_many P p f xs keep h.1)
    | inr e ↦ rw e (h.0, All-update_many P p f xs keep h.1)
  ]

  -- A row that is found meets the condition and satisfies what every row satisfies.
  pub All-find_first {κ} :
      (P : A → Type κ) (p : A → Bool) (xs : List A) {x : A}
      → All P xs
      → find_first p xs ≡ some x
      → P x × (p x ≡ true)
  All-find_first P p [] h e = cc
  All-find_first P p (y ∷ ys) {x} h e = elim (Bool-cases (p y)) [
    | inl t ↦ subst (λ z. P z × (p z ≡ true)) (some-injective y x (rw t at e)) (h.0, t)
    | inr t ↦ All-find_first P p ys h.1 (rw t at e)
  ]

  pub length-update_many :
      (p : A → Bool) (f : A → A) (xs : List A) → length (update_many p f xs) ≡ length xs
  length-update_many p f [] = refl
  length-update_many p f (x ∷ xs) = omega (arith, length-update_many p f xs)

  -- Any two rows are related: a unique constraint, as a fact about the table.
  abbrev pub Apart {κ} : (A → A → Type κ) → List A → Type κ
  Apart R [] = Unit
  Apart R (x ∷ xs) = All (R x) xs × Apart R xs

  pub All-map {κ μ} :
      (P : A → Type κ) (Q : A → Type μ) (xs : List A) → ((x : A) → P x → Q x) → All P xs → All Q xs
  All-map P Q [] f h = tt
  All-map P Q (x ∷ xs) f h = (f x h.0, All-map P Q xs f h.1)

  pub Apart-update_many {κ} :
      (R : A → A → Type κ) (p : A → Bool) (f : A → A) (xs : List A)
      → ((x y : A) → R x y → R (f x) y)
      → ((x y : A) → R x y → R x (f y))
      → Apart R xs
      → Apart R (update_many p f xs)
  Apart-update_many R p f [] left right h = tt
  Apart-update_many R p f (x ∷ xs) left right h = elim (Bool-cases (p x)) [
    | inl e ↦ rw e (
      All-update_many (R (f x)) p f xs (λ y r _. right (f x) y r)
          (All-map (R x) (R (f x)) xs (λ y r. left x y r) h.0),
      Apart-update_many R p f xs left right h.1,
    )
    | inr e ↦ rw e (
      All-update_many (R x) p f xs (λ y r _. right x y r) h.0,
      Apart-update_many R p f xs left right h.1,
    )
  ]

  pub Apart-append_one {κ} :
      (R : A → A → Type κ) (xs : List A) (y : A)
      → All (λ x. R x y) xs
      → Apart R xs
      → Apart R (xs ++ y ∷ [])
  Apart-append_one R [] y a h = (tt, tt)
  Apart-append_one R (x ∷ xs) y a h =
      (All-append (R x) xs (y ∷ []) h.0 (a.0, tt), Apart-append_one R xs y a.1 h.1)

  -- A condition that two related rows never both meet picks out one row.
  pub find_first_unique {κ} :
      (R : A → A → Type κ) (p : A → Bool) (xs : List A) {c : A}
      → ((x y : A) → R x y → p x ≡ true → p y ≡ true → ⊥)
      → Apart R xs
      → find_first p xs ≡ some c
      → All (λ x. p x ≡ true → x ≡ c) xs
  find_first_unique R p [] apart h e = tt
  find_first_unique R p (y ∷ ys) {c} apart h e = elim (Bool-cases (p y)) [
    | inl t ↦
        let same : y ≡ c = some-injective y c (rw t at e) in
        (
          λ _. same,
          All-map (R y) (λ x. p x ≡ true → x ≡ c) ys (λ x r px. absurd (apart y x r t px)) h.0,
        )
    | inr f ↦ (λ t. absurd (false≢true (sym f ∙ t)), find_first_unique R p ys apart h.1 (rw f at e))
  ]

  pub count-none : (p : A → Bool) (xs : List A) → All (λ x. p x ≡ false) xs → count p xs ≡ 0
  count-none p [] h = refl
  count-none p (x ∷ xs) h = rw h.0 (count-none p xs h.1)

  pub count-one {κ} :
      (R : A → A → Type κ) (p : A → Bool) (xs : List A) {c : A}
      → ((x y : A) → R x y → p x ≡ true → p y ≡ true → ⊥)
      → Apart R xs
      → find_first p xs ≡ some c
      → count p xs ≡ 1
  count-one R p [] apart h e = cc
  count-one R p (y ∷ ys) {c} apart h e = elim (Bool-cases (p y)) [
    | inl t ↦ rw t (
        ap suc (
          count-none p ys (
            All-map (R y) (λ x. p x ≡ false) ys
              (λ x r. elim (Bool-cases (p x)) [ inl px ↦ absurd (apart y x r t px) | inr q ↦ q ])
              h.0)))
    | inr f ↦ rw f (count-one R p ys apart h.1 (rw f at e))
  ]

  -- No row meets the condition.
  pub find_first-eq-none :
      (p : A → Bool) (xs : List A) → find_first p xs ≡ none → All (λ x. p x ≡ false) xs
  find_first-eq-none p [] e = tt
  find_first-eq-none p (x ∷ xs) e = elim (Bool-cases (p x)) [
    | inl t ↦ let e' : some x ≡ none = rw t at e in cc
    | inr f ↦ (f, find_first-eq-none p xs (rw f at e))
  ]

  -- A row of the table, with what holds of every row.
  pub All-mem {κ} : (P : A → Type κ) {c : A} (xs : List A) → Memᴰ c xs → All P xs → P c
  All-mem P [] m h = elim m [ ]
  All-mem P (x ∷ xs) (Memᴰ.head e) h = subst P (sym e) h.0
  All-mem P (x ∷ xs) (Memᴰ.tail m) h = All-mem P xs m h.1

  pub All-of_mem {κ} : (P : A → Type κ) (xs : List A) → ((x : A) → Memᴰ x xs → P x) → All P xs
  All-of_mem P [] f = tt
  All-of_mem P (x ∷ xs) f = (f x (Memᴰ.head refl), All-of_mem P xs (λ y m. f y (Memᴰ.tail m)))

  pub find_first-mem : (p : A → Bool) (xs : List A) {c : A} → find_first p xs ≡ some c → Memᴰ c xs
  find_first-mem p [] e = cc
  find_first-mem p (x ∷ xs) {c} e = elim (Bool-cases (p x)) [
    | inl t ↦ Memᴰ.head (sym (some-injective x c (rw t at e)))
    | inr f ↦ Memᴰ.tail (find_first-mem p xs (rw f at e))
  ]

  pub update_many-none :
      (p : A → Bool) (f : A → A) (xs : List A) → All (λ x. p x ≡ false) xs → update_many p f xs ≡ xs
  update_many-none p f [] h = refl
  update_many-none p f (x ∷ xs) h = rw h.0 (ap (λ ys. x ∷ ys) (update_many-none p f xs h.1))

  pub find_first-none :
      (p : A → Bool) (xs : List A) → All (λ x. p x ≡ false) xs → find_first p xs ≡ none
  find_first-none p [] h = refl
  find_first-none p (x ∷ xs) h = rw h.0 (find_first-none p xs h.1)

  -- A condition that two related rows never both meet counts one row, where some row meets it.
  pub count-one_of_mem {κ} :
      (R : A → A → Type κ) (p : A → Bool) (xs : List A) {c : A}
      → ((x y : A) → R x y → p x ≡ true → p y ≡ true → ⊥)
      → Apart R xs
      → Memᴰ c xs
      → p c ≡ true
      → count p xs ≡ 1
  count-one_of_mem R p xs apart h m e = elim (Option-cases (find_first p xs)) [
    | inl missing ↦
        absurd
          (false≢true (sym (All-mem (λ x. p x ≡ false) xs m (find_first-eq-none p xs missing)) ∙ e))
    | inr (d, found) ↦ count-one R p xs apart h found
  ]

  -- The row that one condition finds, after an update by another that it meets.
  pub find_first-update_many :
      (q p : A → Bool) (f : A → A) (xs : List A) {c : A}
      → ((x : A) → q (f x) ≡ q x)
      → p c ≡ true
      → find_first q xs ≡ some c
      → find_first q (update_many p f xs) ≡ some (f c)
  find_first-update_many q p f [] keeps e found = cc
  find_first-update_many q p f (x ∷ xs) {c} keeps e found = elim (Bool-cases (q x)) [
    | inl t ↦
        let same : x ≡ c = some-injective x c (rw t at found) in
        let hit : p x ≡ true = subst (λ y. p y ≡ true) (sym same) e in
        rw hit (
          if_true (q (f x)) (some (f x)) (find_first q (update_many p f xs)) (keeps x ∙ t)
          ∙ ap (λ (y : A). some (f y)) same)
    | inr n ↦
        if_false (q (if p x then f x else x)) (some (if p x then f x else x))
          (find_first q (update_many p f xs)) (missed x n)
        ∙ find_first-update_many q p f xs keeps e (rw n at found)
  ]
    where
      missed : (x : A) → q x ≡ false → q (if p x then f x else x) ≡ false
      missed x n = elim (Bool-cases (p x)) [ inl t ↦ rw t (keeps x ∙ n) | inr m ↦ rw m n ]

  pub find_first-append_one :
      (p : A → Bool) (xs : List A) (y : A)
      → find_first p xs ≡ none
      → p y ≡ true
      → find_first p (xs ++ y ∷ []) ≡ some y
  find_first-append_one p [] y e t = rw t refl
  find_first-append_one p (x ∷ xs) y e t = elim (Bool-cases (p x)) [
    | inl hit ↦ let impossible : some x ≡ none = rw hit at e in cc
    | inr miss ↦ rw miss (find_first-append_one p xs y (rw miss at e) t)
  ]

  -- A row that the condition passes over stays as it is.
  pub mem-update_many :
      (p : A → Bool) (f : A → A) (xs : List A) {c : A}
      → Memᴰ c xs
      → p c ≡ false
      → Memᴰ c (update_many p f xs)
  mem-update_many p f [] m e = elim m [ ]
  mem-update_many p f (x ∷ xs) {c} (Memᴰ.head same) e =
      Memᴰ.head (same ∙ sym (if_false (p x) (f x) x (subst (λ z. p z ≡ false) same e)))
  mem-update_many p f (x ∷ xs) (Memᴰ.tail m) e = Memᴰ.tail (mem-update_many p f xs m e)

  -- Two rows of the table are related, or one and the same.
  pub Apart-mem {κ} :
      (R : A → A → Type κ) (xs : List A) {a b : A}
      → Apart R xs
      → Memᴰ a xs
      → Memᴰ b xs
      → (a ≡ b) ⊎ (R a b ⊎ R b a)
  Apart-mem R [] h m n = elim m [ ]
  Apart-mem R (x ∷ xs) h (Memᴰ.head e) (Memᴰ.head f) = inl (e ∙ sym f)
  Apart-mem R (x ∷ xs) {b = b} h (Memᴰ.head e) (Memᴰ.tail n) =
      inr (inl (subst (λ z. R z b) (sym e) (All-mem (R x) xs n h.0)))
  Apart-mem R (x ∷ xs) {a = a} h (Memᴰ.tail m) (Memᴰ.head f) =
      inr (inr (subst (λ z. R z a) (sym f) (All-mem (R x) xs m h.0)))
  Apart-mem R (x ∷ xs) h (Memᴰ.tail m) (Memᴰ.tail n) = Apart-mem R xs h.1 m n
