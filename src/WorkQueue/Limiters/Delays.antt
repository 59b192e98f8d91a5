-- ===== src/WorkQueue/Limiters/Delays.antt =====
-- The delays of the limiters.
use flowline.Base.{ℕ, ◌+◌, ◌≤◌, ◌≡◌, All, refl, ltb, List, [], ◌∷◌, if◌then◌else◌, arith}
use flowline.Base.Keys.{Key, same, lookup, lookup-store, lookup-erase}
use flowline.WorkQueue.Limiters.{
  RateLimiter, FastSlow, new_fast_slow, fast_slow_requeues, fast_slow_when, fast_slow_forget,
  max_when, max_loop,
}

pub data Call {ℓ} (A : Type ℓ) : Type ℓ where
  whens forgets : A → Call A

-- The calls of When for an item since it was last forgotten, after some that came before.
abbrev pub attempts {ℓ} : {A : Type ℓ} ⦃key : Key A⦄ → A → ℕ → List (Call A) → ℕ
attempts item n [] = n
attempts item n (whens x ∷ calls) = attempts item (if same x item then n + 1 else n) calls
attempts item n (forgets x ∷ calls) = attempts item (if same x item then 0 else n) calls

module _ {ℓ} {A : Type ℓ} ⦃key : Key A⦄ where
  abbrev pub run_calls : FastSlow A → List (Call A) → FastSlow A
  run_calls r [] = r
  run_calls r (whens x ∷ calls) = run_calls (fast_slow_when r x).0 calls
  run_calls r (forgets x ∷ calls) = run_calls (fast_slow_forget r x) calls

  requeues-when :
      (r : FastSlow A) (x item : A)
      → fast_slow_requeues (fast_slow_when r x).0 item
        ≡ (if same x item then fast_slow_requeues r item + 1 else fast_slow_requeues r item)
  unfolding fast_slow_when fast_slow_requeues
  requeues-when r x item =
      ground (arith, lookup-store x item (fast_slow_requeues r x + 1) r.failures)

  requeues-forget :
      (r : FastSlow A) (x item : A)
      → fast_slow_requeues (fast_slow_forget r x) item
        ≡ (if same x item then 0 else fast_slow_requeues r item)
  unfolding fast_slow_forget fast_slow_requeues
  requeues-forget r x item = ground (arith, lookup-erase x item r.failures)

  record After (r : FastSlow A) (item : A) (n : ℕ) (r' : FastSlow A) : Type ℓ where
    requeues : fast_slow_requeues r' item ≡ n
    max_same : r'.max_fast_attempts ≡ r.max_fast_attempts
    fast_same : r'.fast_delay ≡ r.fast_delay
    slow_same : r'.slow_delay ≡ r.slow_delay

  run_calls_lem :
      (r : FastSlow A) (item : A) (n : ℕ) (calls : List (Call A))
      → fast_slow_requeues r item ≡ n
      → After r item (attempts item n calls) (run_calls r calls)
  unfolding fast_slow_when fast_slow_forget
  run_calls_lem r item n [] e = record {
    requeues = e;
    max_same = refl;
    fast_same = refl;
    slow_same = refl;
  }
  run_calls_lem r item n (whens x ∷ calls) e =
      let w =
        run_calls_lem (fast_slow_when r x).0 item (if same x item then n + 1 else n) calls
          (ground (arith, requeues-when r x item)) in
      record {
        requeues = w.requeues;
        max_same = w.max_same;
        fast_same = w.fast_same;
        slow_same = w.slow_same;
      }
  run_calls_lem r item n (forgets x ∷ calls) e =
      let w =
        run_calls_lem (fast_slow_forget r x) item (if same x item then 0 else n) calls
          (ground (arith, requeues-forget r x item)) in
      record {
        requeues = w.requeues;
        max_same = w.max_same;
        fast_same = w.fast_same;
        slow_same = w.slow_same;
      }

  empty : (fast slow max : ℕ) (item : A) → fast_slow_requeues (new_fast_slow fast slow max) item ≡ 0
  unfolding new_fast_slow fast_slow_requeues lookup
  empty fast slow max item = refl

  -- After any calls of a new ItemFastSlowRateLimiter, NumRequeues of an item is the number of calls
  -- of When for it since it was last forgotten, and the next When gives the fast delay while that
  -- number is below the maximum of fast attempts, and the slow delay from then on.
  pub fast_then_slow :
      (fast slow max : ℕ) (item : A) (calls : List (Call A))
      → (fast_slow_requeues (run_calls (new_fast_slow fast slow max) calls) item
          ≡ attempts item 0 calls)
        × ((fast_slow_when (run_calls (new_fast_slow fast slow max) calls) item).1
            ≡ (if ltb (attempts item 0 calls) max then fast else slow))
  unfolding new_fast_slow fast_slow_when
  fast_then_slow fast slow max item calls =
      let w = run_calls_lem (new_fast_slow fast slow max) item 0 calls (empty fast slow max item) in
      (w.requeues, ground (arith, w.requeues, w.max_same, w.fast_same, w.slow_same))

module _ {ℓ κ} {S : Type ℓ} {A : Type κ} (limiter : RateLimiter S A) (item : A) where
  -- No limiter asks for more.
  abbrev pub Covers : List S → ℕ → Type 0
  Covers limiters d = All (λ s. (limiter.when_ s item).1 ≤ d) limiters

  max_loop_least :
      (limiters : List S) (ret : ℕ)
      → (ret ≤ (max_loop limiter limiters item ret).1)
        × Covers limiters (max_loop limiter limiters item ret).1
        × ((d : ℕ) → ret ≤ d → Covers limiters d → (max_loop limiter limiters item ret).1 ≤ d)
  unfolding max_loop
  max_loop_least [] ret = (omega arith, tt, λ d h c. h)
  max_loop_least (s ∷ limiters) ret =
      let curr = (limiter.when_ s item).1 in
      let (more, covers, least) = max_loop_least limiters (if ltb ret curr then curr else ret) in
      (
        ground (arith, more),
        (ground (arith, more), covers),
        λ d h c. ground (arith, least d, c.0, c.1),
      )

  -- When of MaxOfRateLimiter returns the least delay that no limiter exceeds.
  pub max_when_least :
      (limiters : List S)
      → Covers limiters (max_when limiter limiters item).1
        × ((d : ℕ) → Covers limiters d → (max_when limiter limiters item).1 ≤ d)
  unfolding max_when
  max_when_least limiters =
      let (more, covers, least) = max_loop_least limiters 0 in
      (covers, λ d c. least d (omega arith) c)
