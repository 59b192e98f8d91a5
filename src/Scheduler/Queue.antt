-- ===== src/Scheduler/Queue.antt =====
-- pkg/scheduler/queue/scheduling_queue.go: PriorityQueue. Its methods run under its lock and are
-- functions on the state; `now` is the clock's reading, which stands still during a call. The two
-- heaps have the name of a stage for their key, the map of unschedulable stages has its UID.
pub mod Moves
pub mod Calls
pub mod Backoff
pub mod Places
pub mod Take
pub mod NilOld
pub mod Return
pub mod Stay
pub mod Moved
pub mod Flush
mod Tests
use Prim.Native.String.{String}
use flowline.Base.{
  ℕ, zero, suc, ◌+◌, ◌-◌, Bool, true, false, not, ◌&&◌, ltb, leb, ◌==◌, length, List, [], ◌∷◌, ◌++◌,
  map, Option, none, some, if◌then◌else◌,
}
use flowline.Base.Int.{ℤ, pos, negsuc}
use flowline.Base.Keys.{Key, text_key, text_same, same, lookup, store, erase}
use flowline.Base.Run.{Run, ok, panic, ◌>>=◌}
use flowline.Scheduler.Types.{
  Stage, StageInfo, ClusterEvent, is_wild_card, intersect, event_matches,
}
use flowline.Scheduler.Heap.{HeapData}
use flowline.Scheduler.Heap
use flowline.Scheduler.Nominator.{Nominator, new_nominator}

-- What a queue is made with.
pub record Config : Type 0 where
  pub less_func : StageInfo → StageInfo → Bool
  pub lister : Option (String → Option Stage)
  pub initial_backoff : ℕ
  pub max_backoff : ℕ
  pub max_in_unschedulable : ℕ
  pub cluster_event_map : List (ClusterEvent × List String)

-- `broadcasts` counts the calls of cond.Broadcast.
pub record PriorityQueue : Type 0 where
  pub nominator : Nominator
  pub active_q : HeapData StageInfo
  pub backoff_q : HeapData StageInfo
  pub unschedulable : List (String × StageInfo)
  pub scheduling_cycle : ℕ
  pub move_request_cycle : ℤ
  pub closed : Bool
  pub broadcasts : ℕ

pub data QueueError : Type 0 where
  from_heap : Heap.Error → QueueError
  present_unschedulable present_active present_backoff queue_closed : QueueError

-- NewPriorityQueue
unfoldable pub new_priority_queue : PriorityQueue
new_priority_queue = record {
  nominator = new_nominator;
  active_q = Heap.new;
  backoff_q = Heap.new;
  unschedulable = [];
  scheduling_cycle = 0;
  move_request_cycle = negsuc 0;
  closed = false;
  broadcasts = 0;
}

-- newQueuedStageInfo
unfoldable pub new_queued_stage_info : Stage → ℕ → StageInfo
new_queued_stage_info s now = record {
  stage = s;
  timestamp = now;
  attempts = 0;
  initial_attempt = now;
  unschedulable_plugins = [];
}

-- stageInfoKeyFunc
abbrev pub key_func : StageInfo → Option String
key_func info = some info.stage.name

abbrev pub broadcast : PriorityQueue → PriorityQueue
broadcast q = record q { broadcasts = q.broadcasts + 1 }

abbrev pub broadcast_if : Bool → PriorityQueue → PriorityQueue
broadcast_if b q = if b then broadcast q else q

-- The loop of calculateBackoffDuration, with the rounds that are left.
unfoldable pub backoff_loop : ℕ → ℕ → ℕ → ℕ
backoff_loop max zero duration = duration
backoff_loop max (suc rounds) duration =
    let rest = backoff_loop max rounds (duration + duration) in
    if ltb (max - duration) duration then max else rest

-- unschedulableStages.get
abbrev pub get_unschedulable : PriorityQueue → Stage → Option StageInfo
get_unschedulable q s = lookup s.uid q.unschedulable

-- unschedulableStages.delete
abbrev pub drop_unschedulable : PriorityQueue → Stage → PriorityQueue
drop_unschedulable q s = record q { unschedulable = erase s.uid q.unschedulable }

-- unschedulableStages.addOrUpdate
abbrev pub put_unschedulable : PriorityQueue → StageInfo → PriorityQueue
put_unschedulable q info = record q { unschedulable = store info.stage.uid info q.unschedulable }

module _ (c : Config) where
  unfoldable pub calculate_backoff_duration : StageInfo → ℕ
  calculate_backoff_duration info = backoff_loop c.max_backoff (info.attempts - 1) c.initial_backoff

  unfoldable pub get_backoff_time : StageInfo → ℕ
  get_backoff_time info = info.timestamp + calculate_backoff_duration info

  -- stagesCompareBackoffCompleted
  unfoldable pub backoff_less : StageInfo → StageInfo → Bool
  backoff_less a b = ltb (get_backoff_time a) (get_backoff_time b)

  -- isStageBackingoff
  unfoldable pub is_backing_off : StageInfo → ℕ → Bool
  is_backing_off info now = ltb now (get_backoff_time info)

  any_event : List (ClusterEvent × List String) → StageInfo → ClusterEvent → Bool
  any_event [] info e = false
  any_event ((evt, names) ∷ l) info e =
      if event_matches evt e && intersect names info.unschedulable_plugins
      then true
      else any_event l info e

  -- stageMatchesEvent
  unfoldable pub stage_matches_event : StageInfo → ClusterEvent → Bool
  unfolding any_event
  stage_matches_event info e = if is_wild_card e then true else any_event c.cluster_event_map info e

  -- Calls of the two heaps, put into the state.
  unfoldable pub add_active : PriorityQueue → StageInfo → Run (PriorityQueue × Option Heap.Error)
  add_active q info = do
    (h, err) ← Heap.add c.less_func key_func q.active_q info
    ok (record q { active_q = h }, err)

  unfoldable pub add_backoff : PriorityQueue → StageInfo → Run (PriorityQueue × Option Heap.Error)
  add_backoff q info = do
    (h, err) ← Heap.add backoff_less key_func q.backoff_q info
    ok (record q { backoff_q = h }, err)

  unfoldable pub delete_active : PriorityQueue → StageInfo → Run (PriorityQueue × Option Heap.Error)
  delete_active q info = do
    (h, err) ← Heap.delete c.less_func key_func q.active_q info
    ok (record q { active_q = h }, err)

  unfoldable pub delete_backoff :
      PriorityQueue → StageInfo → Run (PriorityQueue × Option Heap.Error)
  delete_backoff q info = do
    (h, err) ← Heap.delete backoff_less key_func q.backoff_q info
    ok (record q { backoff_q = h }, err)

-- PendingStages
unfoldable pub pending_stages : PriorityQueue → List Stage
pending_stages q =
    map (λ i. i.stage) (Heap.list q.active_q)
    ++ (map (λ i. i.stage) (Heap.list q.backoff_q) ++ map (λ e. e.1.stage) q.unschedulable)
