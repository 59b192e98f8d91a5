-- ===== src/Scheduler/Cache/Api.antt =====
-- pkg/scheduler/cache/cache.go: the methods that the scheduler calls.
use Prim.Native.String.{String}
use flowline.Base.{
  ℕ, ◌+◌, Bool, true, false, not, ◌&&◌, ltb, ◌==◌, length, List, [], ◌∷◌, Option, none, some,
  is_some, if◌then◌else◌,
}
use flowline.Base.Keys.{text_key, same, has, remove, lookup, store}
use flowline.Base.Run.{Run, panic, ok, ◌>>=◌}
use flowline.Scheduler.WorkerTree
use flowline.Scheduler.WorkerTree.{Worker, WorkerTree}
use flowline.Scheduler.Types.{Stage}
use flowline.Scheduler.Cache.{
  WorkerObject, WorkerInfo, Cache, CacheError, empty_uid, already_in_cache, other_worker,
  not_assumed, already_added, not_added, not_found, not_in_tree, Result, finished, exited,
  get_stage_key, move_to_head, remove_from_list, info_of, links_of, add_stage, remove_stage,
  update_both,
}

-- AssumeStage
unfoldable pub assume_stage : Cache → Stage → Cache × Option CacheError
assume_stage c stage = elim (get_stage_key stage) [
  | none ↦ (c, some empty_uid)
  | some key ↦
      if is_some (lookup key c.stage_states)
      then (c, some already_in_cache)
      else add_stage c stage true
]

-- finishBinding, at a time.
unfoldable pub finish_binding : Cache → Stage → ℕ → Cache × Option CacheError
finish_binding c stage now = elim (get_stage_key stage) [
  | none ↦ (c, some empty_uid)
  | some key ↦ elim (lookup key c.stage_states) [
    | none ↦ (c, none)
    | some curr ↦
        if has c.assumed_stages key
        then (
          record c {
            stage_states =
                store key
                  (record curr {
                    deadline = if c.ttl == 0 then none else some (now + c.ttl);
                    binding_finished = true;
                  })
                  c.stage_states;
          },
          none,
        )
        else (c, none)
  ]
]

-- ForgetStage
unfoldable pub forget_stage : Cache → Stage → Run (Cache × Option CacheError)
forget_stage c stage = elim (get_stage_key stage) [
  | none ↦ ok (c, some empty_uid)
  | some key ↦ elim (lookup key c.stage_states) [
    | none ↦ ok (c, some not_assumed)
    | some curr ↦
        if same curr.stage.worker_uid stage.worker_uid
        then (if has c.assumed_stages key then remove_stage c stage else ok (c, some not_assumed))
        else ok (c, some other_worker)
  ]
]

-- An inner error that is only logged.
abbrev pub log_error : Cache × Option CacheError → Cache × Option CacheError
log_error r = (r.0, none)

-- AddStage
unfoldable pub add_known_stage : Cache → Stage → Run (Cache × Option CacheError)
add_known_stage c stage = elim (get_stage_key stage) [
  | none ↦ ok (c, some empty_uid)
  | some key ↦ elim (lookup key c.stage_states) [
    | none ↦ ok (log_error (add_stage c stage false))
    | some curr ↦
        if has c.assumed_stages key
        then (if same curr.stage.worker_uid stage.worker_uid
            then ok (
              record c {
                assumed_stages = remove c.assumed_stages key;
                stage_states =
                    store key (record curr { deadline = none; stage = stage }) c.stage_states;
              },
              none,
            )
            else (update_both c curr.stage stage >>= λ r. ok (log_error r)))
        else ok (c, some already_added)
  ]
]

-- UpdateStage
unfoldable pub update_stage : Cache → Stage → Stage → Run Result
update_stage c old new = elim (get_stage_key old) [
  | none ↦ ok (finished c (some empty_uid))
  | some key ↦ elim (lookup key c.stage_states) [
    | none ↦ ok (finished c (some not_added))
    | some curr ↦
        if has c.assumed_stages key
        then ok (finished c (some not_added))
        else (if same curr.stage.worker_uid new.worker_uid
            then (update_both c old new >>= λ r. ok (finished r.0 r.1))
            else ok exited)
  ]
]

-- RemoveStage
unfoldable pub remove_known_stage : Cache → Stage → Run Result
remove_known_stage c stage = elim (get_stage_key stage) [
  | none ↦ ok (finished c (some empty_uid))
  | some key ↦ elim (lookup key c.stage_states) [
    | none ↦ ok (finished c (some not_found))
    | some curr ↦
        if not (same curr.stage.worker_uid stage.worker_uid) && not (same stage.worker_uid "")
        then ok exited
        else (remove_stage c curr.stage >>= λ r. ok (finished r.0 r.1))
  ]
]

-- GetStage
unfoldable pub get_stage : Cache → Stage → Option Stage
get_stage c stage = elim (get_stage_key stage) [
  | none ↦ none
  | some key ↦ elim (lookup key c.stage_states) [ none ↦ none | some curr ↦ some curr.stage ]
]

-- IsAssumedStage
unfoldable pub is_assumed_stage : Cache → Stage → Bool
is_assumed_stage c stage = elim (get_stage_key stage) [
  | none ↦ false
  | some key ↦ has c.assumed_stages key
]

-- AddWorker, with the copy that it returns.
unfoldable pub add_worker : Cache → WorkerObject → Cache × WorkerInfo
add_worker c worker =
    let (n, generation) = info_of c worker.uid in
    let d =
      move_to_head
        (record c {
          workers = store worker.uid n c.workers;
          links = links_of c worker.uid;
          generation = generation;
        })
        worker.uid in
    let n' = record n { worker = some worker; generation = generation + 1 } in
    (
      record d {
        workers = store worker.uid n' d.workers;
        worker_tree = WorkerTree.add_worker d.worker_tree worker.labelled;
        generation = generation + 1;
      },
      n',
    )

abbrev pub labelled_of : Option WorkerObject → Option Worker
labelled_of none = none
labelled_of (some worker) = some worker.labelled

-- UpdateWorker; the old worker may be nil.
unfoldable pub update_worker : Cache → Option WorkerObject → WorkerObject → Run (Cache × WorkerInfo)
update_worker c old new =
    let (n, generation) = info_of c new.uid in
    let tree =
      if is_some (lookup new.uid c.workers)
      then c.worker_tree
      else WorkerTree.add_worker c.worker_tree new.labelled in
    let d =
      move_to_head
        (record c {
          workers = store new.uid n c.workers;
          links = links_of c new.uid;
          generation = generation;
        })
        new.uid in
    let n' = record n { worker = some new; generation = generation + 1 } in
    WorkerTree.update_worker tree (labelled_of old) new.labelled >>= λ updated. ok (
      record d {
        workers = store new.uid n' d.workers;
        worker_tree = updated;
        generation = generation + 1;
      },
      n',
    )

-- RemoveWorker
unfoldable pub remove_worker : Cache → WorkerObject → Cache × Option CacheError
remove_worker c worker = elim (lookup worker.uid c.workers) [
  | none ↦ (c, some not_found)
  | some n ↦
      let n' = record n { worker = none; generation = c.generation + 1 } in
      let d = record c { workers = store worker.uid n' c.workers; generation = c.generation + 1 } in
      let e =
        if length n.stages == 0 then remove_from_list d worker.uid else move_to_head d worker.uid in
      let (tree, failed) = WorkerTree.remove_worker e.worker_tree worker.labelled in
      (record e { worker_tree = tree }, if failed then some not_in_tree else none)
]

-- The end of a call that takes the lock: it waits for ever if its caller holds the lock, since a Go
-- mutex is not reentrant.
pub data Locked : Type 0 where
  returned : Result → Locked
  waits_for_itself : Locked

abbrev pub with_lock : Bool → Run Result → Run Locked
with_lock true body = ok waits_for_itself
with_lock false body = body >>= λ r. ok (returned r)

-- cleanupAssumedStages, over the assumed keys in some order; the flag says whether c.mu is held. An
-- error of RemoveStage is logged.
unfoldable pub cleanup_loop : Bool → Cache → ℕ → List String → Run Locked
cleanup_loop held c now [] = ok (returned (finished c none))
cleanup_loop held c now (key ∷ assumed) = elim (lookup key c.stage_states) [
  | none ↦ ok (returned exited)
  | some state ↦
      let rest = cleanup_loop held c now assumed in
      let expire = with_lock held (remove_known_stage c state.stage) >>= λ r. elim r [
        | waits_for_itself ↦ ok waits_for_itself
        | returned s ↦ elim s [
          | exited ↦ ok (returned exited)
          | finished d err ↦ cleanup_loop held d now assumed
        ]
      ] in
      if state.binding_finished && not (c.ttl == 0)
      then (elim state.deadline [
        | none ↦ panic
        | some deadline ↦ if ltb deadline now then expire else rest
      ])
      else rest
]

-- cleanupAssumedStages, which takes the lock.
unfoldable pub cleanup_assumed_stages : Cache → ℕ → Run Locked
cleanup_assumed_stages c now = cleanup_loop true c now c.assumed_stages
