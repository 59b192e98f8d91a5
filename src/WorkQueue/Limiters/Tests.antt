-- ===== src/WorkQueue/Limiters/Tests.antt =====
-- The limiters at concrete inputs.
use flowline.Base.{ℕ, ◌+◌, ◌≤◌, ◌≡◌, ltb, List, [], ◌∷◌, if◌then◌else◌}
use flowline.Base.Keys.{nat_key}
use flowline.WorkQueue.Limiters.{
  RateLimiter, new_fast_slow, fast_slow_requeues, fast_slow_when, max_when,
}
use flowline.WorkQueue.Limiters.Delays.{
  Call, whens, forgets, attempts, run_calls, fast_then_slow, Covers, max_when_least,
}

abbrev calls : List (Call ℕ)
calls = whens 1 ∷ whens 2 ∷ whens 1 ∷ forgets 2 ∷ []

fast_then_slow_example :
    (fast_slow_requeues (run_calls (new_fast_slow 5 50 2) calls) 1 ≡ attempts 1 0 calls)
    × ((fast_slow_when (run_calls (new_fast_slow 5 50 2) calls) 1).1
        ≡ (if ltb (attempts 1 0 calls) 2 then 5 else 50))
fast_then_slow_example = fast_then_slow 5 50 2 1 calls

-- A limiter that waits for as long as its state says, and longer each time.
abbrev growing : RateLimiter ℕ ℕ
growing = record { when_ = λ s item. (s + 1, s); forget = λ s item. 0; num_requeues = λ s item. s }

max_when_least_example :
    Covers growing 7 (3 ∷ 9 ∷ 4 ∷ []) (max_when growing (3 ∷ 9 ∷ 4 ∷ []) 7).1
    × ((d : ℕ) → Covers growing 7 (3 ∷ 9 ∷ 4 ∷ []) d → (max_when growing (3 ∷ 9 ∷ 4 ∷ []) 7).1 ≤ d)
max_when_least_example = max_when_least growing 7 (3 ∷ 9 ∷ 4 ∷ [])
