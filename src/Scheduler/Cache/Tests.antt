-- ===== src/Scheduler/Cache/Tests.antt =====
-- The cache with two workers and two stages.
use Prim.Native.String.{String}
use flowline.Base.{◌≡◌, refl, sym, ◌∙◌, subst, ap, List, [], ◌∷◌, none, some, Option}
use flowline.Base.Int.{pos}
use flowline.Base.Keys.{text_key, text_same, lookup, store, erase, has, insert, remove}
use flowline.Scheduler.WorkerTree
use flowline.Scheduler.WorkerTree.{get_zone_key}
use flowline.Scheduler.Cache.Pointers.{move_item, new_item, unlink}
use flowline.Base.Run.{out_of_fuel, panic, ok, Returns}
use flowline.Scheduler.Types.{Stage}
use flowline.Scheduler.Cache.{
  StageState, WorkerObject, Cache, Result, finished, exited, new_cache, add_stage, get_stage_key,
  info_of, move_to_head,
}
use flowline.Scheduler.Cache.Api.{
  assume_stage, finish_binding, cleanup_assumed_stages, cleanup_loop, waits_for_itself, add_worker,
  update_worker, add_known_stage, update_stage,
}
use flowline.Scheduler.Cache.Invariant.{Inv}
use flowline.Scheduler.Cache.Methods.{Kept, assume_stage-Inv, finish_binding-Inv}
use flowline.Scheduler.Cache.Histories.{
  Call, call_assume, call_add, call_forget, call_update, call_assume, call_update_worker, run_call,
  ProperCall, call_add_worker, Proper, run_calls, new_cache-Inv, cache_histories-Kept,
}
use flowline.Scheduler.Cache.Sweep.{any_expired, end_of, cleanup_expires_nothing}

abbrev stage : Stage
stage = record {
  name = "s";
  uid = "s1";
  worker_uid = "w1";
  resource_version = "";
  generation = 0;
  finalizers = [];
  priority = pos 0;
  content = "";
}

abbrev worker : WorkerObject
worker = record { uid = "w1"; labelled = record { name = "w"; labels = none } }

-- The stage again, with other contents.
abbrev changed : Stage
changed = record stage { content = "c" }

abbrev updates : List Call
updates = call_update stage changed ∷ call_assume stage ∷ call_forget stage ∷ []

abbrev adds : List Call
adds = call_add stage ∷ updates

abbrev updates_worker : List Call
updates_worker = call_update_worker none worker ∷ adds

abbrev calls : List Call
calls = call_add_worker worker ∷ updates_worker

-- The cache after a call that ends without os.Exit.
abbrev after : Cache → Call → Cache
after c call = elim (run_call c call) [
  | out_of_fuel ↦ c
  | panic ↦ c
  | ok r ↦ elim r [ exited ↦ c | finished d err ↦ d ]
]

abbrev with_worker : Cache
with_worker = after (new_cache 10) (call_add_worker worker)

abbrev with_again : Cache
with_again = after with_worker (call_update_worker none worker)

abbrev with_stage : Cache
with_stage = after with_again (call_add stage)

ok_injective : (r s : Result) → ok r ≡ ok s → r ≡ s
ok_injective r s e = cc e

-- One more call in front of a history.
first_call :
    (c : Cache) (call : Call) (calls : List Call) (r : Result)
    → run_call c call ≡ ok r
    → ProperCall c call
    → Proper r calls
    → Proper (finished c none) (call ∷ calls)
first_call c call calls r e first later =
    (first, λ s f. subst (λ t. Proper t calls) (ok_injective r s (sym e ∙ f)) later)

forgets : (r : Result) → Proper r (call_forget stage ∷ [])
forgets exited = tt
forgets (finished c err) = (tt, λ r e. tt)

assumes : (r : Result) → Proper r (call_assume stage ∷ call_forget stage ∷ [])
assumes exited = tt
assumes (finished c err) = (tt, λ r e. forgets r)

program : Unit {0}
unfolding new_cache assume_stage add_stage finish_binding get_stage_key info_of move_to_head
    cleanup_assumed_stages cleanup_loop run_call add_worker update_worker add_known_stage
    update_stage move_item new_item unlink get_zone_key WorkerTree.update_worker
    WorkerTree.add_worker WorkerTree.new_tree lookup store erase has insert remove text_same
program = tt

abbrev worker_of : Option StageState → String
worker_of none = ""
worker_of (some state) = state.stage.worker_uid

update-Proper : Proper (finished with_stage none) updates
unfolding program
update-Proper = ((refl, λ curr there. ap worker_of (sym there)), λ r e. assumes r)

calls-Proper : Proper (finished (new_cache 10) none) calls
unfolding program
calls-Proper =
    first_call (new_cache 10) (call_add_worker worker) updates_worker (finished with_worker none)
      refl tt
      (first_call with_worker (call_update_worker none worker) adds (finished with_again none) refl
        refl
        (first_call with_again (call_add stage) updates (finished with_stage none) refl tt
          update-Proper))

cache_histories-Kept_example : Returns Kept (run_calls (finished (new_cache 10) none) calls)
cache_histories-Kept_example = cache_histories-Kept 10 calls calls-Proper

abbrev bound : Cache
bound = (finish_binding (assume_stage (new_cache 10) stage).0 stage 5).0

bound-Inv : Inv bound
bound-Inv =
    finish_binding-Inv (assume_stage (new_cache 10) stage).0 stage 5
      (assume_stage-Inv (new_cache 10) stage (new_cache-Inv 10))

-- The deadline is 15.
too_late : cleanup_assumed_stages bound 16 ≡ ok waits_for_itself
unfolding program
too_late = refl

cleanup_expires_nothing_example :
    cleanup_assumed_stages bound 16 ≡ ok (end_of (any_expired bound 16 bound.assumed_stages) bound)
cleanup_expires_nothing_example = cleanup_expires_nothing bound 16 bound-Inv
