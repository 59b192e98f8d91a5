-- ===== src/Scheduler/Queue/Backoff.antt =====
-- The backoff of a stage, against the closed form, and the order of the backoff queue.
use flowline.Base.{
  double, grows, ℕ, zero, suc, ◌+◌, ◌-◌, ◌*◌, ◌^◌, ◌≤◌, ◌<◌, ◌≡◌, min, ltb, arith, ◌∙◌, Bool-cases,
  inl, inr,
}
use flowline.Scheduler.Types.{StageInfo}
use flowline.Scheduler.Heap.Invariant.{IsOrder}
use flowline.Scheduler.Queue.{Config, backoff_loop, calculate_backoff_duration, backoff_less}

backoff_loop-eq : (max n d : ℕ) → d ≤ max → backoff_loop max n d ≡ min (d * 2 ^ n) max
unfolding backoff_loop
backoff_loop-eq max zero d h = omega arith
backoff_loop-eq max (suc n) d h = elim (Bool-cases (ltb (max - d) d)) [
  | inl far ↦
      let twice : max < d + d = ground arith in
      rw far (omega (arith, grows (d + d) n, double d n, twice))
  | inr near ↦
      let twice : d + d ≤ max = ground arith in
      rw near (backoff_loop-eq max n (d + d) twice ∙ omega (arith, double d n))
]

-- Where the initial backoff is at most the maximum, a stage backs off for the initial backoff,
-- doubled for each attempt after the first, and at most for the maximum.
pub calculate_backoff_duration-eq :
    (c : Config) (info : StageInfo)
    → c.initial_backoff ≤ c.max_backoff
    → calculate_backoff_duration c info
      ≡ min (c.initial_backoff * 2 ^ (info.attempts - 1)) c.max_backoff
unfolding calculate_backoff_duration
calculate_backoff_duration-eq c info h =
    backoff_loop-eq c.max_backoff (info.attempts - 1) c.initial_backoff h

-- The order of the backoff queue is one for a heap.
pub backoff_less-IsOrder : (c : Config) → IsOrder (backoff_less c)
unfolding backoff_less
backoff_less-IsOrder c = record { asym = λ x y h. ground arith; trans = λ x y z p q. ground arith }
