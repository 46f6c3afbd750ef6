-- ===== src/Schedules/Times.antt =====
-- The times of day that `TIME_OF_DAY_PATTERN` matches:
-- backend/src/modules/scheduler/scheduled-workflow.service.ts.
use biz_pilot_ai.Prelude.{ℕ, ◌+◌, ◌-◌, ◌*◌, ◌/◌, ◌%◌, ◌≡◌, ◌<◌, true, [], ◌∷◌, Text, arith}
use biz_pilot_ai.Schedules.{matches_time}

-- "HH:mm".
unfoldable pub print_time : ℕ → ℕ → Text
print_time h m = (48 + h / 10) ∷ (48 + h % 10) ∷ 58 ∷ (48 + m / 10) ∷ (48 + m % 10) ∷ []

same_codes :
    {a b c d e a' b' c' d' e' : ℕ}
    → a ≡ a'
    → b ≡ b'
    → c ≡ c'
    → d ≡ d'
    → e ≡ e'
    → Path Text (a ∷ b ∷ c ∷ d ∷ e ∷ []) (a' ∷ b' ∷ c' ∷ d' ∷ e' ∷ [])
same_codes p q r s t i = p i ∷ q i ∷ r i ∷ s i ∷ t i ∷ []

pub five :
    (a b c d e : ℕ)
    → matches_time (a ∷ b ∷ c ∷ d ∷ e ∷ []) ≡ true
    → (h : ℕ) × ((m : ℕ) × (h < 24) × (m < 60) × (a ∷ b ∷ c ∷ d ∷ e ∷ [] ≡ print_time h m))
unfolding print_time
five a b c d e t = (
  (a - 48) * 10 + (b - 48),
  (
    (d - 48) * 10 + (e - 48),
    ground (arith, t),
    ground (arith, t),
    same_codes (ground (arith, t)) (ground (arith, t)) (ground (arith, t)) (ground (arith, t))
        (ground (arith, t)),
  ),
)

pub matches_time-print_time : (h m : ℕ) → h < 24 → m < 60 → matches_time (print_time h m) ≡ true
unfolding print_time
matches_time-print_time h m low high = ground arith
