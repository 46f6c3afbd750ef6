-- ===== src/Workflows/Commands/Resumption.antt =====
-- Where a retried run resumes.
use Prim.Native.Nat.{ℕ, zero, suc, ◌+◌, ◌-◌}
use native.Mathlib.Numerals.{towards_suc}
use mathlib.Core.Path.{subst}
use mathlib.Core.Option.{some-injective}
use biz_pilot_ai.Prelude.{
  ◌≡◌, ◌≢◌, ◌∙◌, refl, ap, true, false, Option, none, some, List, [], ◌∷◌, ◌==◌, arith, All, Apart,
  get_elem?, Bool-cases, Option-cases, ltb, if_true, if_false, ==_iff, inl, inr,
}
use biz_pilot_ai.Workflows.{StepDefinition}
use biz_pilot_ai.Workflows.Engine.{find_index, start_index}
use biz_pilot_ai.Workflows.Commands.{rewind_key, key_before}

-- Step keys within one definition are unique.
abbrev pub DistinctKeys : List StepDefinition → Type 0
DistinctKeys steps = Apart (λ a b. a.key ≢ b.key) steps

find_index_bound :
    (key : ℕ) (steps : List StepDefinition) (n : ℕ)
    → find_index key steps ≡ some n
    → (t : StepDefinition) × (get_elem? steps n ≡ some t)
find_index_bound key [] n e = cc
find_index_bound key (s ∷ ss) n e = elim (Bool-cases (s.key == key)) [
  | inl t ↦ (s, subst (λ k. get_elem? (s ∷ ss) k ≡ some s) (some-injective 0 n (rw t at e)) refl)
  | inr f ↦ elim (Option-cases (find_index key ss)) [
    | inl missing ↦ let no : none ≡ some n = rw (f, missing) at e in cc
    | inr (m, found) ↦
        let later : some (m + 1) ≡ some n = rw (f, found) at e in
        let (t, at) = find_index_bound key ss m found in
        (
          t,
          subst (λ k. get_elem? (s ∷ ss) k ≡ some t) (some-injective (m + 1) n later)
              (simp towards_suc at),
        )
  ]
]

All-get_elem? :
    (P : StepDefinition → Type 0) (steps : List StepDefinition) (n : ℕ) {t : StepDefinition}
    → All P steps
    → get_elem? steps n ≡ some t
    → P t
All-get_elem? P [] n h e = cc
All-get_elem? P (s ∷ ss) zero h e = subst P (some-injective s _ e) h.0
All-get_elem? P (s ∷ ss) (suc n) h e = All-get_elem? P ss n h.1 e

find_index_of_get :
    (steps : List StepDefinition) (n : ℕ) (t : StepDefinition)
    → DistinctKeys steps
    → get_elem? steps n ≡ some t
    → find_index t.key steps ≡ some n
find_index_of_get [] n t d e = cc
find_index_of_get (s ∷ ss) zero t d e =
    let same : s ≡ t = some-injective s t e in
    if_true _ _ _ ((==_iff s.key t.key).1 (ap (λ (x : StepDefinition). x.key) same))
find_index_of_get (s ∷ ss) (suc n) t d e =
    let apart = All-get_elem? (λ b. s.key ≢ b.key) ss n d.0 e in
    let differ : (s.key == t.key) ≡ false = ground arith in
    if_false _ _ _ differ
    ∙ (rw (find_index_of_get ss n t d.1 e) (ap {B = Option ℕ} some (omega arith)))

get_elem?_before :
    (steps : List StepDefinition) (n : ℕ) (t : StepDefinition)
    → get_elem? steps (suc n) ≡ some t
    → (u : StepDefinition) × (get_elem? steps n ≡ some u)
get_elem?_before [] n t e = cc
get_elem?_before (s ∷ ss) zero t e = (s, refl)
get_elem?_before (s ∷ ss) (suc n) t e = get_elem?_before ss n t e

key_before_lem :
    (steps : List StepDefinition) (n : ℕ) (u : StepDefinition)
    → get_elem? steps n ≡ some u
    → key_before (some (suc n)) steps ≡ some u.key
key_before_lem steps n u e =
    let back : suc n - 1 ≡ n = omega arith in
    let ahead : ltb 0 (suc n) ≡ true = ground arith in if_true _ _ _ ahead ∙ (rw back (rw e))

start_index_lem :
    (steps : List StepDefinition) (key n : ℕ)
    → find_index key steps ≡ some n
    → start_index (some key) steps ≡ n + 1
unfolding start_index
start_index_lem steps key n e = rw e

rewound :
    (steps : List StepDefinition) (n : ℕ) (t : StepDefinition)
    → DistinctKeys steps
    → get_elem? steps n ≡ some t
    → start_index (key_before (some n) steps) steps ≡ n
unfolding start_index
rewound steps zero t d h = refl
rewound steps (suc n) t d h =
    let (u, at) = get_elem?_before steps n t h in
    ap (λ k. start_index k steps) (key_before_lem steps n u at)
    ∙ (start_index_lem steps u.key n (find_index_of_get steps n u d at) ∙ omega arith)

-- A retry rewinds the current step so that the run resumes at the step that failed, not after it:
-- where the failed step is the one of index n and step keys are unique, the run starts at index n,
-- while without the rewinding it would start at n + 1 and leave the failed step out.
pub rewind_key_resumes :
    (steps : List StepDefinition) (key n : ℕ)
    → DistinctKeys steps
    → find_index key steps ≡ some n
    → (start_index (rewind_key (some key) steps) steps ≡ n) × (start_index (some key) steps ≡ n + 1)
unfolding rewind_key
rewind_key_resumes steps key n d e =
    let (t, at) = find_index_bound key steps n e in
    (rw e (rewound steps n t d at), start_index_lem steps key n e)
