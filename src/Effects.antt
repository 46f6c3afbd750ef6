-- ===== src/Effects.antt =====
-- An asynchronous operation on a store: it returns or throws, and what it wrote before stays.
use biz_pilot_ai.Errors.{Thrown}

pub data Result {ℓ} (A : Type ℓ) : Type ℓ where
  ok : A → Result A
  err : Thrown → Result A

module _ {S : Type 0} where
  abbrev pub resume : {A B : Type 0} → Result A × S → (A → S → Result B × S) → Result B × S
  resume (ok a, s) k = k a s
  resume (err e, s) k = (err e, s)

abbrev pub M : Type 0 → Type 0 → Type 0
M S A = S → Result A × S

infixl 5 ◌>>=◌ ◌>>◌
abbrev pub ◌>>=◌ : {S A B : Type 0} → M S A → (A → M S B) → M S B
◌>>=◌ m k s = resume (m s) k

abbrev pub ◌>>◌ : {S B : Type 0} → M S (Unit {0}) → M S B → M S B
◌>>◌ m k s = resume (m s) (λ _. k)

abbrev pub pure : {S A : Type 0} → A → M S A
pure a s = (ok a, s)

abbrev pub throw : {S A : Type 0} → Thrown → M S A
throw e s = (err e, s)

abbrev pub get : {S : Type 0} → M S S
get s = (ok s, s)

abbrev pub modify : {S : Type 0} → (S → S) → M S (Unit {0})
modify f s = (ok tt, f s)
