-- ===== src/Scheduler/Queue/Moves.antt =====
-- The moves of stages between the parts of the queue.
use Prim.Native.String.{String}
use flowline.Base.{
  ℕ, zero, suc, ◌-◌, Bool, true, false, not, ◌&&◌, ◌||◌, ltb, ◌==◌, length, List, [], ◌∷◌, Option,
  none, some, if◌then◌else◌,
}
use flowline.Base.Int.{pos}
use flowline.Base.Keys.{text_key}
use flowline.Base.Run.{Run, ok, out_of_fuel, ◌>>=◌}
use flowline.Scheduler.Types.{Stage, StageInfo, ClusterEvent, all_actions, update_actions}
use flowline.Scheduler.Heap
use flowline.Scheduler.Nominator
use flowline.Scheduler.Queue.{
  Config, PriorityQueue, broadcast_if, key_func, get_backoff_time, backoff_less, is_backing_off,
  stage_matches_event, get_unschedulable, drop_unschedulable, add_active, add_backoff,
  delete_backoff, new_queued_stage_info,
}

abbrev pub assigned_stage_add : ClusterEvent
assigned_stage_add = record { resource = "Stage"; action_type = 1; label = "AssignedStageAdd" }

abbrev pub assigned_stage_update : ClusterEvent
assigned_stage_update = record {
  resource = "Stage";
  action_type = update_actions;
  label = "AssignedStageUpdate";
}

abbrev pub unschedulable_timeout : ClusterEvent
unschedulable_timeout = record {
  resource = "*";
  action_type = all_actions;
  label = "UnschedulableTimeout";
}

module _ (c : Config) where
  -- One round of the loop of moveStagesToActiveOrBackoffQueue: the state, and whether the stage went
  -- to the active queue.
  unfoldable pub move_stage :
      PriorityQueue → StageInfo → ClusterEvent → ℕ → Run (PriorityQueue × Bool)
  move_stage q info e now =
      if not (length info.unschedulable_plugins == 0) && not (stage_matches_event c info e)
      then ok (q, false)
      else if is_backing_off c info now
      then (do
        (q', err) ← add_backoff c q info
        elim err [ some _ ↦ ok (q', false) | none ↦ ok (drop_unschedulable q' info.stage, false) ])
      else (do
        (q', err) ← add_active c q info
        elim err [ some _ ↦ ok (q', false) | none ↦ ok (drop_unschedulable q' info.stage, true) ])

  unfoldable pub move_loop :
      PriorityQueue → List StageInfo → ClusterEvent → ℕ → Run (PriorityQueue × Bool)
  move_loop q [] e now = ok (q, false)
  move_loop q (info ∷ infos) e now = do
    (q', one) ← move_stage q info e now
    (q'', rest) ← move_loop q' infos e now
    ok (q'', one || rest)

  -- moveStagesToActiveOrBackoffQueue
  unfoldable pub move_stages : PriorityQueue → List StageInfo → ClusterEvent → ℕ → Run PriorityQueue
  move_stages q infos e now = do
    (q', activated) ← move_loop q infos e now
    ok (broadcast_if activated (record q' { move_request_cycle = pos q'.scheduling_cycle }))

  unfoldable pub select : (StageInfo → Bool) → List (String × StageInfo) → List StageInfo
  select p [] = []
  select p ((k, info) ∷ m) = if p info then info ∷ select p m else select p m

  -- MoveAllToActiveOrBackoffQueue
  unfoldable pub move_all :
      PriorityQueue → ClusterEvent → Option (Stage → Bool) → ℕ → Run PriorityQueue
  move_all q e pre_check now =
      let passes : StageInfo → Bool =
        λ info. elim pre_check [ none ↦ true | some check ↦ check info.stage ] in
      move_stages q (select passes q.unschedulable) e now

  -- AssignedStageAdded and AssignedStageUpdated: every unschedulable stage is considered.
  unfoldable pub assigned_stage_added : PriorityQueue → ℕ → Run PriorityQueue
  assigned_stage_added q now =
      move_stages q (select (λ _. true) q.unschedulable) assigned_stage_add now

  unfoldable pub assigned_stage_updated : PriorityQueue → ℕ → Run PriorityQueue
  assigned_stage_updated q now =
      move_stages q (select (λ _. true) q.unschedulable) assigned_stage_update now

  -- flushUnschedulableStagesLeftover
  unfoldable pub flush_unschedulable : PriorityQueue → ℕ → Run PriorityQueue
  flush_unschedulable q now =
      let left =
        select (λ info. ltb c.max_in_unschedulable (now - info.timestamp)) q.unschedulable in
      if ltb 0 (length left) then move_stages q left unschedulable_timeout now else ok q

  -- The loop of flushBackoffQCompleted, with whether a stage was activated.
  unfoldable pub flush_loop : ℕ → PriorityQueue → ℕ → Run (PriorityQueue × Bool)
  flush_loop zero q now = out_of_fuel
  flush_loop (suc fuel) q now = do
    head ← Heap.peek q.backoff_q
    elim head [
      | none ↦ ok (q, false)
      | some info ↦
          let moved : Run (PriorityQueue × Bool) = do
            (h, obj, err) ← Heap.pop_head (backoff_less c) q.backoff_q
            elim err [
              | some _ ↦ ok (record q { backoff_q = h }, false)
              | none ↦ (do
                (q', _) ← add_active c (record q { backoff_q = h }) info
                (q'', _) ← flush_loop fuel q' now
                ok (q'', true))
            ]
          in if ltb now (get_backoff_time c info) then ok (q, false) else moved
    ]

  -- flushBackoffQCompleted
  unfoldable pub flush_backoff : PriorityQueue → ℕ → Run PriorityQueue
  flush_backoff q now = do
    (q', activated) ← flush_loop (suc (Heap.len q.backoff_q)) q now
    ok (broadcast_if activated q')

  -- `pInfo` of `activate`: in the unschedulable stages, else in the backoff queue.
  unfoldable pub find_inactive : PriorityQueue → Stage → Option StageInfo
  find_inactive q s = elim (get_unschedulable q s) [
    | some info ↦ some info
    | none ↦ (Heap.get (backoff_less c) key_func q.backoff_q (new_queued_stage_info s 0)).0
  ]

  -- activate
  unfoldable pub activate : PriorityQueue → Stage → Run (PriorityQueue × Bool)
  activate q s = elim (Heap.get c.less_func key_func q.active_q (new_queued_stage_info s 0)).0 [
    | some _ ↦ ok (q, false)
    | none ↦ elim (find_inactive q s) [
      | none ↦ ok (q, false)
      | some info ↦ (do
        (q', err) ← add_active c q info
        elim err [
          | some _ ↦ ok (q', false)
          | none ↦ (do
            (q'', _) ← delete_backoff c (drop_unschedulable q' s) info
            ok (
              record q'' { nominator = Nominator.add c.lister q''.nominator info.stage none },
              true,
            ))
        ])
    ]
  ]

  unfoldable pub activate_loop : PriorityQueue → List Stage → Run (PriorityQueue × Bool)
  activate_loop q [] = ok (q, false)
  activate_loop q (s ∷ l) = do
    (q', one) ← activate q s
    (q'', rest) ← activate_loop q' l
    ok (q'', one || rest)

  -- Activate
  unfoldable pub activate_all : PriorityQueue → List Stage → Run PriorityQueue
  activate_all q stages = do
    (q', activated) ← activate_loop q stages
    ok (broadcast_if activated q')
