-- ===== src/Scheduler/Queue/Calls.antt =====
-- The calls that put stages into the queue and take them out.
use Prim.Native.String.{String}
use flowline.Base.{
  ℕ_discrete, ℕ, ◌+◌, Bool, true, false, ◌==◌, [], Option, none, some, is_some, if◌then◌else◌,
}
use flowline.Base.Int.{ℤ, lebℤ}
use flowline.Base.Keys.{text_key, text_same, lookup, store}
use flowline.Base.Run.{Run, ok, panic, ◌>>=◌}
use flowline.Scheduler.Types.{Stage, StageInfo}
use flowline.Scheduler.Heap
use flowline.Scheduler.Heap.{HeapData}
use flowline.Scheduler.Nominator
use flowline.Scheduler.Queue.{
  Config, PriorityQueue, QueueError, from_heap, present_unschedulable, present_active,
  present_backoff, queue_closed, broadcast, key_func, backoff_less, is_backing_off,
  get_unschedulable, drop_unschedulable, put_unschedulable, add_active, add_backoff, delete_active,
  delete_backoff, new_queued_stage_info,
}

-- How an attempt of Pop ends.
pub data Popped : Type 0 where
  blocked : Popped
  failed : QueueError → Popped
  popped : StageInfo → Popped

unfoldable pub Stage-discrete : Discrete Stage
Stage-discrete = hlevel (text_same, ℕ_discrete)

-- `strip`, which clears the fields of the stage that it is given.
unfoldable pub strip : Stage → Stage
strip s = record s { resource_version = ""; generation = 0; finalizers = [] }

-- isStageUpdated
unfoldable pub is_stage_updated : Stage → Stage → Bool
is_stage_updated old new = elim (Stage-discrete (strip old) (strip new)) [
  | yes _ ↦ false
  | no _ ↦ true
]

-- A write through the pointer that the heap holds under a key.
unfoldable pub mutate : HeapData StageInfo → String → StageInfo → HeapData StageInfo
mutate h k info = elim (lookup k h.items) [
  | none ↦ h
  | some it ↦ record h { items = store k (record it { obj = info }) h.items }
]

module _ (c : Config) where
  -- Add
  unfoldable pub add : PriorityQueue → Stage → ℕ → Run (PriorityQueue × Option QueueError)
  add q s now = do
    let info = new_queued_stage_info s now
    (q1, err) ← add_active c q info
    elim err [
      | some e ↦ ok (q1, some (from_heap e))
      | none ↦ (do
        let q2 = if is_some (get_unschedulable q1 s) then drop_unschedulable q1 s else q1
        (q3, _) ← delete_backoff c q2 info
        ok (broadcast (record q3 { nominator = Nominator.add c.lister q3.nominator s none }), none))
    ]

  unfoldable pub park : PriorityQueue → StageInfo → ℤ → Run (PriorityQueue × Option QueueError)
  park q info cycle =
      if lebℤ cycle q.move_request_cycle
      then (do
        (q', err) ← add_backoff c q info
        elim err [
          | some e ↦ ok (q', some (from_heap e))
          | none ↦
              ok (
                record q' { nominator = Nominator.add c.lister q'.nominator info.stage none },
                none,
              )
        ])
      else let q' = put_unschedulable q info in
        ok (record q' { nominator = Nominator.add c.lister q'.nominator info.stage none }, none)

  -- AddUnschedulableIfNotPresent, for a stage that was taken in the given scheduling cycle.
  unfoldable pub add_unschedulable_if_not_present :
      PriorityQueue → StageInfo → ℤ → ℕ → Run (PriorityQueue × Option QueueError)
  unfolding park
  add_unschedulable_if_not_present q info cycle now =
      if is_some (get_unschedulable q info.stage)
      then ok (q, some present_unschedulable)
      else if is_some (Heap.get c.less_func key_func q.active_q info).0
      then ok (q, some present_active)
      else if is_some (Heap.get (backoff_less c) key_func q.backoff_q info).0
      then ok (q, some present_backoff)
      else park q (record info { timestamp = now }) cycle

  -- Pop
  unfoldable pub pop : PriorityQueue → Run (PriorityQueue × Popped)
  pop q =
      if Heap.len q.active_q == 0
      then ok (q, if q.closed then failed queue_closed else blocked)
      else (do
        (h, obj, err) ← Heap.pop_head c.less_func q.active_q
        elim err [
          | some e ↦ ok (record q { active_q = h }, failed (from_heap e))
          | none ↦ elim obj [
            | none ↦ panic
            | some info ↦ ok (
              record q { active_q = h; scheduling_cycle = q.scheduling_cycle + 1 },
              popped (record info { attempts = info.attempts + 1 }),
            )
          ]
        ])

  lift : PriorityQueue × Option Heap.Error → PriorityQueue × Option QueueError
  lift (q, none) = (q, none)
  lift (q, some e) = (q, some (from_heap e))

  -- Update of a stage that is in the active queue, or in the backoff queue: in place, through the
  -- pointer, and then by Update of the heap.
  unfoldable pub update_active :
      PriorityQueue → Stage → StageInfo → Stage → Run (PriorityQueue × Option QueueError)
  unfolding lift
  update_active q old found new = do
    let info = record found { stage = new }
    let written = record q {
      active_q = mutate q.active_q old.name info;
      nominator = Nominator.update_nominated_stage c.lister q.nominator old new;
    }
    r ← add_active c written info
    ok (lift r)

  unfoldable pub update_backoff :
      PriorityQueue → Stage → StageInfo → Stage → Run (PriorityQueue × Option QueueError)
  unfolding lift
  update_backoff q old found new = do
    let info = record found { stage = new }
    let written = record q {
      backoff_q = mutate q.backoff_q old.name info;
      nominator = Nominator.update_nominated_stage c.lister q.nominator old new;
    }
    r ← add_backoff c written info
    ok (lift r)

  -- Update of a stage that is among the unschedulable ones. It reads the old stage through its
  -- pointer. A stage that counts as updated is stored stripped: `strip` writes to it.
  unfoldable pub update_unschedulable :
      PriorityQueue → Option Stage → StageInfo → Stage → ℕ → Run (PriorityQueue × Option QueueError)
  update_unschedulable q none found new now = panic
  update_unschedulable q (some old) found new now =
      let info = record found { stage = strip new } in
      let q1 = record q {
        nominator = Nominator.update_nominated_stage c.lister q.nominator old (strip new);
      } in
      if is_stage_updated old new
      then (if is_backing_off c info now
          then (do
            (q2, err) ← add_backoff c q1 info
            elim err [
              | some e ↦ ok (q2, some (from_heap e))
              | none ↦ ok (drop_unschedulable q2 new, none)
            ])
          else (do
            (q2, err) ← add_active c q1 info
            elim err [
              | some e ↦ ok (q2, some (from_heap e))
              | none ↦ ok (broadcast (drop_unschedulable q2 new), none)
            ]))
      else ok (put_unschedulable q1 info, none)

  -- Update of a stage that is in none of the three.
  unfoldable pub update_new : PriorityQueue → Stage → ℕ → Run (PriorityQueue × Option QueueError)
  update_new q new now = do
    (q', err) ← add_active c q (new_queued_stage_info new now)
    elim err [
      | some e ↦ ok (q', some (from_heap e))
      | none ↦
          ok (
            broadcast (record q' { nominator = Nominator.add c.lister q'.nominator new none }),
            none,
          )
    ]

  unfoldable pub update_rest :
      PriorityQueue → Option Stage → Stage → ℕ → Run (PriorityQueue × Option QueueError)
  update_rest q old new now = elim (get_unschedulable q new) [
    | some found ↦ update_unschedulable q old found new now
    | none ↦ update_new q new now
  ]

  update_old : PriorityQueue → Stage → Stage → ℕ → Run (PriorityQueue × Option QueueError)
  update_old q old new now =
      let lookup_info = new_queued_stage_info old 0 in
      elim (Heap.get c.less_func key_func q.active_q lookup_info).0 [
        | some found ↦ update_active q old found new
        | none ↦ elim (Heap.get (backoff_less c) key_func q.backoff_q lookup_info).0 [
          | some found ↦ update_backoff q old found new
          | none ↦ update_rest q (some old) new now
        ]
      ]

  -- Update; the old stage may be nil.
  unfoldable pub update :
      PriorityQueue → Option Stage → Stage → ℕ → Run (PriorityQueue × Option QueueError)
  unfolding update_rest update_old
  update q none new now = update_rest q none new now
  update q (some old) new now = update_old q old new now

  -- Delete
  unfoldable pub delete : PriorityQueue → Stage → Run PriorityQueue
  delete q s = do
    let info = new_queued_stage_info s 0
    (q1, err) ← delete_active c (record q { nominator = Nominator.delete q.nominator s }) info
    elim err [
      | none ↦ ok q1
      | some _ ↦ (do (q2, _) ← delete_backoff c q1 info; ok (drop_unschedulable q2 s))
    ]

-- Close; a second call closes the channel `stop` again and panics.
unfoldable pub close : PriorityQueue → Run PriorityQueue
close q = if q.closed then panic else ok (broadcast (record q { closed = true }))
