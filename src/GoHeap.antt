-- ===== src/GoHeap.antt =====
-- container/heap of Go's standard library, as far as pkg/scheduler/heap and pkg/util/workqueue
-- call it, over an implementation of its interface. A loop takes fuel: an index falls or grows at
-- each round, so the length of the heap is enough.
pub mod Laws
pub mod Up
pub mod Down
pub mod Calls
use flowline.Base.{
  ℕ, zero, suc, ◌+◌, ◌-◌, ◌*◌, ◌/◌, Bool, true, false, not, ltb, leb, ◌==◌, if◌then◌else◌,
}
use flowline.Base.Run.{Run, ok, panic, out_of_fuel, ◌>>=◌}

-- heap.Interface: Push takes an X, Pop returns a Y.
pub record Interface {ℓ} (S X Y : Type ℓ) : Type ℓ where
  pub len : S → ℕ
  pub less : S → ℕ → ℕ → Run Bool
  pub swap : S → ℕ → ℕ → Run S
  pub push : S → X → Run S
  pub pop : S → Run (S × Y)

abbrev pub parent : ℕ → ℕ
parent j = (j - 1) / 2

module _ {ℓ} {S X Y : Type ℓ} (h : Interface S X Y) where
  unfoldable pub up_loop : ℕ → S → ℕ → Run S
  up_loop zero s j = out_of_fuel
  up_loop (suc fuel) s j =
      let rise = h.swap s (parent j) j >>= λ t. up_loop fuel t (parent j) in
      let step = h.less s j (parent j) >>= λ below. if below then rise else ok s in
      if parent j == j then ok s else step

  unfoldable pub up : S → ℕ → Run S
  up s j = up_loop (suc j) s j

  unfoldable pub smaller_child : S → ℕ → ℕ → Run ℕ
  smaller_child s i n =
      let left = 2 * i + 1 in
      if ltb (left + 1) n
      then (h.less s (left + 1) left >>= λ below. ok (if below then left + 1 else left))
      else ok left

  -- The loop of `down` yields the heap and the last index.
  unfoldable pub down_loop : ℕ → S → ℕ → ℕ → Run (S × ℕ)
  down_loop zero s i n = out_of_fuel
  down_loop (suc fuel) s i n =
      let step : Run (S × ℕ) = do
        j ← smaller_child s i n
        below ← h.less s j i
        let sink = h.swap s i j >>= λ t. down_loop fuel t j n
        if below then sink else ok (s, i)
      in if leb n (2 * i + 1) then ok (s, i) else step

  unfoldable pub down : S → ℕ → ℕ → Run (S × Bool)
  down s i n = do (t, last) ← down_loop (suc n) s i n; ok (t, ltb i last)

  unfoldable pub sink_or_rise : S → ℕ → ℕ → Run S
  sink_or_rise s i n = do (t, moved) ← down s i n; if moved then ok t else up t i

  unfoldable pub heap_push : S → X → Run S
  heap_push s x = do t ← h.push s x; up t (h.len t - 1)

  -- An empty heap: Swap(0, -1) panics.
  unfoldable pub heap_pop : S → Run (S × Y)
  heap_pop s =
      if h.len s == 0
      then panic
      else do t ← h.swap s 0 (h.len s - 1); (u, _) ← down t 0 (h.len s - 1); h.pop u

  unfoldable pub heap_remove : S → ℕ → Run (S × Y)
  heap_remove s i =
      let last = h.len s - 1 in
      if h.len s == 0
      then panic
      else if last == i
      then h.pop s
      else do t ← h.swap s i last; u ← sink_or_rise t i last; h.pop u

  unfoldable pub heap_fix : S → ℕ → Run S
  heap_fix s i = sink_or_rise s i (h.len s)
