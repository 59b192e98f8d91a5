-- ===== src/Scheduler/Nominator.antt =====
-- The nominator of pkg/scheduler/queue/scheduling_queue.go: which stages are nominated for which
-- worker. The lister of stages is a parameter: it finds the stage with a UID, or fails.
pub mod Laws
mod Tests
use Prim.Native.String.{String}
use flowline.Base.{
  Bool, true, false, ◌&&◌, not, List, [], ◌∷◌, ◌++◌, Option, none, some, if◌then◌else◌,
}
use flowline.Base.Keys.{text_key, same, lookup, store, erase}
use flowline.Scheduler.Types.{Stage}

pub data NominatingMode : Type 0 where
  mode_noop mode_override : NominatingMode

pub record NominatingInfo : Type 0 where
  pub nominated_worker_name : String
  pub nominating_mode : NominatingMode

pub record Nominator : Type 0 where
  pub nominated_stages : List (String × List Stage)
  pub nominated_stage_to_worker : List (String × String)

unfoldable pub new_nominator : Nominator
new_nominator = record { nominated_stages = []; nominated_stage_to_worker = [] }

-- Mode, of a pointer that may be nil.
abbrev pub mode : Option NominatingInfo → NominatingMode
mode none = mode_noop
mode (some info) = info.nominating_mode

-- `npm.nominatedStages[worker]`
unfoldable pub nominated_for : Nominator → String → List Stage
nominated_for n worker = elim (lookup worker n.nominated_stages) [ none ↦ [] | some l ↦ l ]

unfoldable pub holds_uid : List Stage → String → Bool
holds_uid [] uid = false
holds_uid (s ∷ l) uid = if same s.uid uid then true else holds_uid l uid

unfoldable pub drop_uid : List Stage → String → List Stage
drop_uid [] uid = []
drop_uid (s ∷ l) uid = if same s.uid uid then l else s ∷ drop_uid l uid

unfoldable put_list : List (String × List Stage) → String → List Stage → List (String × List Stage)
put_list m worker [] = erase worker m
put_list m worker (s ∷ l) = store worker (s ∷ l) m

-- delete
unfoldable pub delete : Nominator → Stage → Nominator
unfolding put_list
delete n p = elim (lookup p.uid n.nominated_stage_to_worker) [
  | none ↦ n
  | some worker ↦
      let l = nominated_for n worker in
      record {
        nominated_stages =
            if holds_uid l p.uid
            then put_list n.nominated_stages worker (drop_uid l p.uid)
            else n.nominated_stages;
        nominated_stage_to_worker = erase p.uid n.nominated_stage_to_worker;
      }
]

-- The last part of `add`, for a stage that may be nominated.
unfoldable pub nominate : Nominator → Stage → String → Nominator
nominate n s worker =
    let l = nominated_for n worker in
    record {
      nominated_stages =
          if holds_uid l s.uid
          then n.nominated_stages
          else store worker (l ++ s ∷ []) n.nominated_stages;
      nominated_stage_to_worker = store s.uid worker n.nominated_stage_to_worker;
    }

abbrev pub nominated_worker : Option NominatingInfo → String
nominated_worker none = ""
nominated_worker (some info) = elim info.nominating_mode [
  | mode_override ↦ info.nominated_worker_name
  | mode_noop ↦ ""
]

module _ (lister : Option (String → Option Stage)) where
  -- Whether the lister knows the stage and has it without a worker; without a lister it is not asked.
  unfoldable pub may_nominate : String → Bool
  may_nominate uid = elim lister [
    | none ↦ true
    | some get ↦ elim (get uid) [ none ↦ false | some s ↦ same s.worker_uid "" ]
  ]

  -- add
  unfoldable pub add : Nominator → Stage → Option NominatingInfo → Nominator
  add n s info =
      let cleared = delete n s in
      if may_nominate s.uid then nominate cleared s (nominated_worker info) else cleared

  -- UpdateNominatedStage
  unfoldable pub update_nominated_stage : Nominator → Stage → Stage → Nominator
  update_nominated_stage n old new =
      let kept : Option NominatingInfo =
        if same old.worker_uid "" && same new.worker_uid ""
        then elim (lookup old.uid n.nominated_stage_to_worker) [
          | none ↦ none
          | some worker ↦
              some (record { nominated_worker_name = worker; nominating_mode = mode_override })
        ]
        else none in
      add (delete n old) new kept
