-- ===== src/WorkQueue/Limiters.antt =====
-- pkg/util/workqueue/default_rate_limiters.go: the limiters that count in integers. A limiter passes
-- its state on; delays are nanoseconds.
mod Delays
mod Tests
use flowline.Base.{ℕ, ◌+◌, Bool, leb, ltb, List, [], ◌∷◌, map, Option, none, some, if◌then◌else◌}
use flowline.Base.Keys.{Key, lookup, store, erase}

-- RateLimiter
pub record RateLimiter {ℓ κ} (S : Type ℓ) (A : Type κ) : Type (ℓ ⊔ κ) where
  pub when_ : S → A → S × ℕ
  pub forget : S → A → S
  pub num_requeues : S → A → ℕ

-- ItemFastSlowRateLimiter
pub record FastSlow {ℓ} (A : Type ℓ) : Type ℓ where
  pub failures : List (A × ℕ)
  pub max_fast_attempts : ℕ
  pub fast_delay : ℕ
  pub slow_delay : ℕ

module _ {ℓ} {A : Type ℓ} ⦃key : Key A⦄ where
  -- NewItemFastSlowRateLimiter
  unfoldable pub new_fast_slow : ℕ → ℕ → ℕ → FastSlow A
  new_fast_slow fast slow max = record {
    failures = [];
    max_fast_attempts = max;
    fast_delay = fast;
    slow_delay = slow;
  }

  -- NumRequeues; a missing key reads 0.
  unfoldable pub fast_slow_requeues : FastSlow A → A → ℕ
  fast_slow_requeues r item = elim (lookup item r.failures) [ none ↦ 0 | some n ↦ n ]

  -- When
  unfoldable pub fast_slow_when : FastSlow A → A → FastSlow A × ℕ
  fast_slow_when r item =
      let n = fast_slow_requeues r item + 1 in
      (
        record r { failures = store item n r.failures },
        if leb n r.max_fast_attempts then r.fast_delay else r.slow_delay,
      )

  -- Forget
  unfoldable pub fast_slow_forget : FastSlow A → A → FastSlow A
  fast_slow_forget r item = record r { failures = erase item r.failures }

module _ {ℓ κ} {S : Type ℓ} {A : Type κ} (limiter : RateLimiter S A) where
  max_loop : List S → A → ℕ → List S × ℕ
  max_loop [] item ret = ([], ret)
  max_loop (s ∷ limiters) item ret =
      let (s', curr) = limiter.when_ s item in
      let (rest, r) = max_loop limiters item (if ltb ret curr then curr else ret) in (s' ∷ rest, r)

  -- When of MaxOfRateLimiter.
  unfoldable pub max_when : List S → A → List S × ℕ
  unfolding max_loop
  max_when limiters item = max_loop limiters item 0

  requeues_loop : List S → A → ℕ → ℕ
  requeues_loop [] item ret = ret
  requeues_loop (s ∷ limiters) item ret =
      let curr = limiter.num_requeues s item in
      requeues_loop limiters item (if ltb ret curr then curr else ret)

  -- NumRequeues of MaxOfRateLimiter.
  unfoldable pub max_requeues : List S → A → ℕ
  unfolding requeues_loop
  max_requeues limiters item = requeues_loop limiters item 0

  -- Forget of MaxOfRateLimiter.
  unfoldable pub max_forget : List S → A → List S
  max_forget limiters item = map (λ s. limiter.forget s item) limiters

  -- When of WithMaxWaitRateLimiter.
  unfoldable pub capped_when : S → ℕ → A → S × ℕ
  capped_when s max_delay item =
      let (s', delay) = limiter.when_ s item in
      (s', if ltb max_delay delay then max_delay else delay)
