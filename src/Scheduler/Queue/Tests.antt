-- ===== src/Scheduler/Queue/Tests.antt =====
-- The scheduling queue at concrete inputs.
use Prim.Native.String.{String}
use flowline.Base.{
  ℕ, ◌*◌, ◌^◌, ◌-◌, min, ◌≡◌, ◌⊎◌, ltb, refl, Bool, true, false, none, some, is_some, [], ◌∷◌,
  arith, get_elem?-singleton,
}
use flowline.Base.Int.{pos}
use flowline.Base.Keys.{text_key, has, text_same, lookup}
use flowline.Base.Run.{ok, panic, Returns}
use flowline.Scheduler.Types.{Stage, StageInfo, priority_less}
use flowline.Scheduler.Heap.{HeapData, get_by_key, new}
use flowline.Scheduler.Heap.Valid.{Valid, new-Valid}
use flowline.Scheduler.Heap.Invariant.{IsOrder}
use flowline.Scheduler.Sort.{priority_less-IsOrder}
use flowline.Scheduler.Queue.{
  Config, PriorityQueue, new_priority_queue, new_queued_stage_info, key_func, backoff_less,
  calculate_backoff_duration,
}
use flowline.Scheduler.Queue.Backoff.{backoff_less-IsOrder, calculate_backoff_duration-eq}
use flowline.Scheduler.Queue.Moves.{
  move_all, flush_unschedulable, flush_backoff, assigned_stage_add,
}
use flowline.Scheduler.Queue.Calls.{pop, add, add_unschedulable_if_not_present, update}
use flowline.Scheduler.Queue.Places.{Naming, Inv, active_at}
use flowline.Scheduler.Queue.Stay.{Kept}
use flowline.Scheduler.Queue.Moved.{
  BulkMoved, Chosen, move_all_correct, flush_unschedulable_correct,
}
use flowline.Scheduler.Queue.Flush.{Flushed, flush_backoff_correct}
use flowline.Scheduler.Queue.Take.{PopEnds, Placed, pop_correct, add_activates}
use flowline.Scheduler.Queue.Return.{ReturnEnds, add_unschedulable_correct}
use flowline.Scheduler.Queue.NilOld.{update_nil_old}

abbrev config : Config
config = record {
  less_func = priority_less;
  lister = none;
  initial_backoff = 1;
  max_backoff = 10;
  max_in_unschedulable = 5;
  cluster_event_map = [];
}

abbrev naming : Naming
naming = record { uid_of = λ name. name; injective = λ j k e. e }

abbrev build : Stage
build = record {
  name = "build";
  uid = "build";
  worker_uid = "";
  resource_version = "1";
  generation = 1;
  finalizers = [];
  priority = pos 2;
  content = "";
}

abbrev parked_build : StageInfo
parked_build = record {
  stage = build;
  timestamp = 3;
  attempts = 2;
  initial_attempt = 0;
  unschedulable_plugins = [];
}

-- One stage is unschedulable.
abbrev waiting : PriorityQueue
waiting = record new_priority_queue { unschedulable = ("build", parked_build) ∷ [] }

waiting-Inv : Inv config priority_less-IsOrder naming waiting
unfolding lookup text_same new_priority_queue new has
waiting-Inv = record {
  active_valid = new-Valid priority_less key_func priority_less-IsOrder;
  backoff_valid = new-Valid (backoff_less config) key_func (backoff_less-IsOrder config);
  parked_once = (refl, tt);
  parked_own = λ u i e. ground arith;
  parked_proper = λ u i e. ground arith;
}

empty-Inv : Inv config priority_less-IsOrder naming new_priority_queue
unfolding lookup new_priority_queue
empty-Inv = record {
  active_valid = new-Valid priority_less key_func priority_less-IsOrder;
  backoff_valid = new-Valid (backoff_less config) key_func (backoff_less-IsOrder config);
  parked_once = tt;
  parked_own = λ u i e. ground arith;
  parked_proper = λ u i e. ground arith;
}

abbrev held : Stage → ℕ → HeapData StageInfo
held s time = record {
  items = (s.name, record { obj = new_queued_stage_info s time; index = 0 }) ∷ [];
  queue = s.name ∷ [];
}

held-Valid :
    (f : StageInfo → StageInfo → Bool) (order : IsOrder f) (s : Stage) (time : ℕ)
    → Valid f key_func order (held s time)
unfolding lookup get_by_key new_queued_stage_info has
held-Valid f order s time = record {
  inv = record {
    keys_once = (refl, tt);
    located = λ i k e. ground (arith, get_elem?-singleton s.name i);
    listed = λ k i e. ground (arith, get_elem?-singleton s.name i);
  };
  heap = λ i p q. absurd (omega arith);
  keyed = λ k x e. ground arith;
}

abbrev test : Stage
test = record build { name = "test"; uid = "test" }

-- One stage is active, one backs off.
abbrev busy : PriorityQueue
busy = record new_priority_queue { active_q = held build 4; backoff_q = held test 5 }

busy-Inv : Inv config priority_less-IsOrder naming busy
unfolding lookup new_priority_queue
busy-Inv = record {
  active_valid = held-Valid priority_less priority_less-IsOrder build 4;
  backoff_valid = held-Valid (backoff_less config) (backoff_less-IsOrder config) test 5;
  parked_once = tt;
  parked_own = λ u i e. ground arith;
  parked_proper = λ u i e. ground arith;
}

move_all_correct_example :
    Returns
      (BulkMoved config priority_less-IsOrder naming waiting (λ i. true) assigned_stage_add)
      (move_all config waiting assigned_stage_add none 9)
move_all_correct_example =
    move_all_correct config priority_less-IsOrder naming waiting assigned_stage_add none 9
      waiting-Inv

flush_unschedulable_correct_example :
    Returns
      (λ q'.
        Kept config priority_less-IsOrder naming waiting q'
        × ((u : String) (i : StageInfo)
            → Chosen (λ i. ltb 5 (9 - i.timestamp)) waiting.unschedulable u i
            → lookup u q'.unschedulable ≡ none))
      (flush_unschedulable config waiting 9)
flush_unschedulable_correct_example =
    flush_unschedulable_correct config priority_less-IsOrder naming waiting 9 waiting-Inv

flush_backoff_correct_example :
    Returns (Flushed config priority_less-IsOrder naming busy 9) (flush_backoff config busy 9)
flush_backoff_correct_example =
    flush_backoff_correct config priority_less-IsOrder naming busy 9 busy-Inv

pop_correct_example :
    Returns (λ (q', r). PopEnds config priority_less-IsOrder naming busy q' r) (pop config busy)
pop_correct_example = pop_correct config priority_less-IsOrder naming busy busy-Inv

add_activates_example :
    Returns
      (λ (q', err).
        (err ≡ none)
        × (Placed config priority_less-IsOrder naming waiting build q'
            × (active_at config priority_less-IsOrder naming q' "build"
                ≡ some (new_queued_stage_info build 4))))
      (add config waiting build 4)
add_activates_example =
    add_activates config priority_less-IsOrder naming waiting build 4 waiting-Inv refl

add_unschedulable_correct_example :
    Returns
      (λ (q', err).
        ReturnEnds config priority_less-IsOrder naming new_priority_queue parked_build
          (pos 1)
          q'
          err)
      (add_unschedulable_if_not_present config new_priority_queue parked_build (pos 1) 9)
add_unschedulable_correct_example =
    add_unschedulable_correct config priority_less-IsOrder naming new_priority_queue parked_build
      (pos 1) 9 empty-Inv refl

update_nil_old_example :
    ((update config waiting none build 9 ≡ panic)
      × (is_some (lookup "build" waiting.unschedulable) ≡ true))
    ⊎ ((q' : PriorityQueue) × (update config waiting none build 9 ≡ ok (q', none))
        × (active_at config priority_less-IsOrder naming q' "build"
            ≡ some (new_queued_stage_info build 9))
        × (is_some (lookup "build" waiting.unschedulable) ≡ false))
update_nil_old_example =
    update_nil_old config priority_less-IsOrder naming waiting build 9 waiting-Inv

calculate_backoff_duration-eq_example :
    calculate_backoff_duration config parked_build ≡ min (1 * 2 ^ 1) 10
calculate_backoff_duration-eq_example =
    calculate_backoff_duration-eq config parked_build (omega arith)
