-- ===== src/Scheduler/Queue/Places.antt =====
-- Where the stages of a queue are. The active and the backoff queue go by the name of a stage and
-- the unschedulable stages by its UID; `uid_of` gives the UID of the stage with a name.
use Prim.Native.String.{String}
use flowline.Base.{ℕ, ◌+◌, ◌≡◌, refl, if◌then◌else◌, Option, none, some, is_some}
use flowline.Base.Keys.{text_key, same, lookup, keys, Distinct}
use flowline.Base.Run.{ok, Returns-value}
use flowline.Scheduler.Types.{Stage, StageInfo}
use flowline.Scheduler.Heap
use flowline.Scheduler.Heap.{HeapData, get_by_key}
use flowline.Scheduler.Heap.Invariant.{IsOrder}
use flowline.Scheduler.Heap.Valid.{Valid}
use flowline.Scheduler.Heap.Add.{add_correct}
use flowline.Scheduler.Heap.Remove.{delete_total}
use flowline.Scheduler.Queue.{
  Config, PriorityQueue, key_func, backoff_less, add_active, add_backoff, delete_backoff,
  delete_active,
}
use flowline.Scheduler.Queue.Backoff.{backoff_less-IsOrder}

-- The names and the UIDs of stages determine each other.
pub record Naming : Type 0 where
  pub uid_of : String → String
  pub injective : (j k : String) → uid_of j ≡ uid_of k → j ≡ k

module _ (c : Config) (order : IsOrder c.less_func) (n : Naming) where
  abbrev pub Proper : Stage → Type 0
  Proper s = s.uid ≡ n.uid_of s.name

  abbrev pub active_at : PriorityQueue → String → Option StageInfo
  active_at q k = get_by_key q.active_q k

  abbrev pub backoff_at : PriorityQueue → String → Option StageInfo
  backoff_at q k = get_by_key q.backoff_q k

  abbrev pub parked_at : PriorityQueue → String → Option StageInfo
  parked_at q k = lookup (n.uid_of k) q.unschedulable

  abbrev pub count : Option StageInfo → ℕ
  count none = 0
  count (some info) = 1

  -- In how many of the three places the stage with the name is.
  abbrev pub places : PriorityQueue → String → ℕ
  places q k = count (active_at q k) + count (backoff_at q k) + count (parked_at q k)

  -- Both heaps are valid, and every unschedulable stage stands under its own UID.
  pub record Inv (q : PriorityQueue) : Type 0 where
    pub active_valid : Valid c.less_func key_func order q.active_q
    pub backoff_valid : Valid (backoff_less c) key_func (backoff_less-IsOrder c) q.backoff_q
    pub parked_once : Distinct (keys q.unschedulable)
    pub parked_own :
        (u : String) (info : StageInfo) → lookup u q.unschedulable ≡ some info → info.stage.uid ≡ u
    pub parked_proper :
        (u : String) (info : StageInfo) → lookup u q.unschedulable ≡ some info → Proper info.stage

  -- The result of a call on the active heap: nothing else of the state changes.
  pub record ActiveChange (f : String → Option StageInfo) (h : HeapData StageInfo) : Type 0 where
    pub valid : Valid c.less_func key_func order h
    pub contents : (j : String) → get_by_key h j ≡ f j

  pub record BackoffChange (f : String → Option StageInfo) (h : HeapData StageInfo) : Type 0 where
    pub valid : Valid (backoff_less c) key_func (backoff_less-IsOrder c) h
    pub contents : (j : String) → get_by_key h j ≡ f j

  pub add_active_lem :
      (q : PriorityQueue) (info : StageInfo)
      → Valid c.less_func key_func order q.active_q
      → (h : HeapData StageInfo) × (add_active c q info ≡ ok (record q { active_q = h }, none))
        × ActiveChange (λ j. if same info.stage.name j then some info else active_at q j) h
  unfolding add_active
  add_active_lem q info v =
      let ((h, err), ran, added) =
        Returns-value
          (add_correct c.less_func key_func order q.active_q info info.stage.name v refl) in
      (h, rw (ran, added.no_error), record { valid = added.valid; contents = added.contents })

  pub add_backoff_lem :
      (q : PriorityQueue) (info : StageInfo)
      → Valid (backoff_less c) key_func (backoff_less-IsOrder c) q.backoff_q
      → (h : HeapData StageInfo) × (add_backoff c q info ≡ ok (record q { backoff_q = h }, none))
        × BackoffChange (λ j. if same info.stage.name j then some info else backoff_at q j) h
  unfolding add_backoff
  add_backoff_lem q info v =
      let ((h, err), ran, added) = Returns-value (
        add_correct (backoff_less c) key_func (backoff_less-IsOrder c) q.backoff_q info
          info.stage.name v refl) in
      (h, rw (ran, added.no_error), record { valid = added.valid; contents = added.contents })

  pub delete_backoff_lem :
      (q : PriorityQueue) (info : StageInfo)
      → Valid (backoff_less c) key_func (backoff_less-IsOrder c) q.backoff_q
      → (h : HeapData StageInfo) × (err : Option Heap.Error) × (delete_backoff c q info
          ≡ ok (record q { backoff_q = h }, err))
        × BackoffChange (λ j. if same info.stage.name j then none else backoff_at q j) h
        × (err
            ≡ (if is_some (backoff_at q info.stage.name) then none else some Heap.object_not_found))
  unfolding delete_backoff
  delete_backoff_lem q info v =
      let ((h, err), ran, (valid, contents, e)) = Returns-value (
        delete_total (backoff_less c) key_func (backoff_less-IsOrder c) q.backoff_q info
          info.stage.name v refl) in
      (h, err, rw ran, record { valid = valid; contents = contents }, e)

  pub delete_active_lem :
      (q : PriorityQueue) (info : StageInfo)
      → Valid c.less_func key_func order q.active_q
      → (h : HeapData StageInfo) × (err : Option Heap.Error) × (delete_active c q info
          ≡ ok (record q { active_q = h }, err))
        × ActiveChange (λ j. if same info.stage.name j then none else active_at q j) h
        × (err
            ≡ (if is_some (active_at q info.stage.name) then none else some Heap.object_not_found))
  unfolding delete_active
  delete_active_lem q info v =
      let ((h, err), ran, (valid, contents, e)) =
        Returns-value
          (delete_total c.less_func key_func order q.active_q info info.stage.name v refl) in
      (h, err, rw ran, record { valid = valid; contents = contents }, e)
