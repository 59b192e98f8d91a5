-- ===== src/Scheduler/Cache.antt =====
-- pkg/scheduler/cache/cache.go: the stages that the scheduler knows of, by worker, and those that it
-- assumes to be bound. A nil pointer panics; os.Exit is a result. The pointers of the linked
-- list of the workers are in Pointers. The counters of requested resources, to which the code
-- always adds 0, are left out, and so are the names in the tree of workers.
pub mod Invariant
mod Api
mod Calls
mod Sweep
mod Histories
pub mod Pointers
mod Methods
mod Removals
mod Stages
mod Tests
use Prim.Native.String.{String}
use flowline.Base.{
  ℕ, suc, ◌+◌, ◌-◌, Bool, true, false, not, ◌&&◌, ltb, ◌==◌, length, get_elem?, set, take, List, [],
  ◌∷◌, ◌++◌, map, Option, none, some, is_some, if◌then◌else◌,
}
use flowline.Base.Keys.{text_key, same, has, insert, remove, lookup, store, erase, keys}
use flowline.Base.Run.{Run, panic, ok, ◌>>=◌}
use flowline.Scheduler.WorkerTree
use flowline.Scheduler.WorkerTree.{Worker, WorkerTree}
use flowline.Scheduler.Types.{Stage}
use flowline.Scheduler.Cache.Pointers.{Links, no_links, new_item, move_item, remove_item}

-- meta.Worker: its UID, and what the tree reads of it.
pub record WorkerObject : Type 0 where
  pub uid : String
  pub labelled : Worker

pub record WorkerInfo : Type 0 where
  pub worker : Option WorkerObject
  pub stages : List Stage
  pub generation : ℕ

pub record StageState : Type 0 where
  pub stage : Stage
  pub deadline : Option ℕ
  pub binding_finished : Bool

-- `generation` is the counter of nextGeneration.
pub record Cache : Type 0 where
  pub ttl : ℕ
  pub assumed_stages : List String
  pub stage_states : List (String × StageState)
  pub workers : List (String × WorkerInfo)
  pub links : Links
  pub worker_tree : WorkerTree
  pub generation : ℕ

pub data CacheError : Type 0 where
  empty_uid already_in_cache other_worker not_assumed already_added not_added not_found no_stage
        not_in_tree :
      CacheError

-- How a call ends: with the state and an error, if any, or with os.Exit.
pub data Result : Type 0 where
  finished : Cache → Option CacheError → Result
  exited : Result

-- newCache
unfoldable pub new_cache : ℕ → Cache
new_cache ttl = record {
  ttl = ttl;
  assumed_stages = [];
  stage_states = [];
  workers = [];
  links = no_links;
  worker_tree = WorkerTree.new_tree;
  generation = 0;
}

-- GetStageKey
unfoldable pub get_stage_key : Stage → Option String
get_stage_key s = if same s.uid "" then none else some s.uid

-- moveWorkerInfoToHead
unfoldable pub move_to_head : Cache → String → Cache
move_to_head c name =
    if is_some (lookup name c.workers) then record c { links = move_item c.links name } else c

-- removeWorkerInfoFromList
unfoldable pub remove_from_list : Cache → String → Cache
remove_from_list c name =
    if is_some (lookup name c.workers)
    then record c { links = remove_item c.links name; workers = erase name c.workers }
    else c

-- The worker info of a key, a new one if there is none, with the counter after that.
unfoldable pub info_of : Cache → String → WorkerInfo × ℕ
info_of c uid = elim (lookup uid c.workers) [
  | some n ↦ (n, c.generation)
  | none ↦ (record { worker = none; stages = []; generation = c.generation + 1 }, c.generation + 1)
]

-- The pointers, with an item for a key that has none.
abbrev pub links_of : Cache → String → Links
links_of c uid = if is_some (lookup uid c.workers) then c.links else new_item c.links uid

-- addStage
unfoldable pub add_stage : Cache → Stage → Bool → Cache × Option CacheError
add_stage c stage assume = elim (get_stage_key stage) [
  | none ↦ (c, some empty_uid)
  | some key ↦
      let (n, generation) = info_of c stage.worker_uid in
      let n' = record n { stages = n.stages ++ stage ∷ []; generation = generation + 1 } in
      let d =
        move_to_head
          (record c {
            workers = store stage.worker_uid n' c.workers;
            links = links_of c stage.worker_uid;
            generation = generation + 1;
          })
          stage.worker_uid in
      (
        record d {
          stage_states =
              store key (record { stage = stage; deadline = none; binding_finished = false })
                d.stage_states;
          assumed_stages = if assume then insert d.assumed_stages key else d.assumed_stages;
        },
        none,
      )
]

-- The first index of a stage with a key.
unfoldable pub index_of : String → List Stage → Option ℕ
index_of key [] = none
index_of key (s ∷ l) = elim (get_stage_key s) [
  | none ↦ elim (index_of key l) [ none ↦ none | some i ↦ some (suc i) ]
  | some k ↦
      if same key k then some 0 else (elim (index_of key l) [ none ↦ none | some i ↦ some (suc i) ])
]

-- WorkerInfo.RemoveStage: the stages, with the last one in the place of the one removed.
unfoldable pub without_stage : List Stage → String → Option (List Stage)
without_stage stages key = elim (index_of key stages) [
  | none ↦ none
  | some i ↦ elim (get_elem? stages (length stages - 1)) [
    | none ↦ none
    | some last ↦ some (take (length stages - 1) (set stages i last))
  ]
]

-- The end of removeStage.
abbrev pub forget_key : Cache → String → Cache
forget_key c key = record c {
  stage_states = erase key c.stage_states;
  assumed_stages = remove c.assumed_stages key;
}

-- removeStage. The error of RemoveStage reads the UID of the worker, which may be nil.
unfoldable pub remove_stage : Cache → Stage → Run (Cache × Option CacheError)
remove_stage c stage = elim (get_stage_key stage) [
  | none ↦ ok (c, some empty_uid)
  | some key ↦ elim (lookup stage.worker_uid c.workers) [
    | none ↦ ok (forget_key c key, none)
    | some n ↦ elim (without_stage n.stages key) [
      | none ↦ if is_some n.worker then ok (c, some no_stage) else panic
      | some rest ↦
          let n' = record n { stages = rest; generation = c.generation + 1 } in
          let d = record c {
            workers = store stage.worker_uid n' c.workers;
            generation = c.generation + 1;
          } in
          let e =
            if length rest == 0 && not (is_some n.worker)
            then remove_from_list d stage.worker_uid
            else move_to_head d stage.worker_uid in
          ok (forget_key e key, none)
    ]
  ]
]

-- updateStage
unfoldable pub update_both : Cache → Stage → Stage → Run (Cache × Option CacheError)
update_both c old new = remove_stage c old >>= λ r. elim r.1 [
  | some e ↦ ok (r.0, some e)
  | none ↦ ok (add_stage r.0 new false)
]
