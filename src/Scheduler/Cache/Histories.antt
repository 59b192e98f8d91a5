-- ===== src/Scheduler/Cache/Histories.antt =====
-- What every history of calls of the cache keeps.
use Prim.Native.String.{String}
use flowline.Base.{
  ℕ, ◌+◌, ◌≡◌, refl, ap, sym, ◌∙◌, true, not, ◌||◌, ◌==◌, length, List, [], ◌∷◌, Option, none, some,
  is_some, arith, Option-cases, Bool-cases, inl, inr,
}
use flowline.Base.Keys.{
  text_key, same, same_eq, same_refl, has, lookup, store, erase, lookup-store, lookup-erase,
}
use flowline.Base.Run.{Run, ok, ◌>>=◌, Returns, returns, Returns-bind, Returns-value}
use flowline.Scheduler.Types.{Stage}
use flowline.Scheduler.Cache.{
  WorkerObject, WorkerInfo, Cache, CacheError, Result, finished, exited, new_cache,
}
use flowline.Scheduler.Cache.Api.{
  assume_stage, finish_binding, forget_stage, add_known_stage, update_stage, remove_known_stage,
  add_worker, update_worker, remove_worker, labelled_of,
}
use flowline.Scheduler.Cache.Invariant.{Inv, stages_at, stages_in}
use flowline.Scheduler.WorkerTree
use flowline.Scheduler.WorkerTree.{Worker, WorkerTree, get_zone_key}
use flowline.Scheduler.Cache.{remove_from_list, info_of, links_of}
use flowline.Scheduler.Cache.Pointers.{move_item}
use flowline.Scheduler.Cache.Invariant.{Placed-same, Ordered-any, Ordered-drop, stages_at-store}
use flowline.Scheduler.Cache.Calls.{
  stages_of_info, stored, moved_to_head, with_info-Ordered, store-Busy,
}
use flowline.Scheduler.Cache.Removals.{no_stages}
use flowline.Scheduler.Cache.Methods.{
  Kept, Consistent, assume_stage-Inv, finish_binding-Inv, forget_stage-Inv, add_known_stage-Inv,
  update_stage-Kept, remove_known_stage-Kept,
}

stages_stay :
    (u : String) (n' : WorkerInfo) (workers : List (String × WorkerInfo))
    → n'.stages ≡ stages_at workers u
    → (j : String) → stages_at (store u n' workers) j ≡ stages_at workers j
stages_stay u n' workers same_stages j = elim (Bool-cases (same u j)) [
  | inl here ↦
      (rw here at (stages_at-store u j n' workers))
      ∙ same_stages
      ∙ ap (stages_at workers) (same_eq u j here)
  | inr away ↦ rw away at (stages_at-store u j n' workers)
]

-- The worker info of a worker is replaced; its stages stay.
set_info-Inv :
    (c : Cache) (u : String) (n n' : WorkerInfo) (tree : WorkerTree) (generation : ℕ)
    → Inv c
    → n.stages ≡ stages_at c.workers u
    → n'.stages ≡ n.stages
    → is_some n'.worker || not (length n'.stages == 0) ≡ true
    → Inv (record c {
      workers = store u n' (store u n c.workers);
      links = move_item (links_of c u) u;
      worker_tree = tree;
      generation = generation;
    })
set_info-Inv c u n n' tree generation v old same_stages busy = record {
  placed =
      Placed-same (stages_at c.workers) (stages_at (store u n' (store u n c.workers)))
        c.stage_states v.placed
        (λ j.
          stages_stay u n' (store u n c.workers)
            (same_stages ∙ sym (rw (same_refl u) at (stages_at-store u u n c.workers))) j
          ∙ stages_stay u n c.workers old j);
  ordered =
      Ordered-any c.workers (store u n' (store u n c.workers)) c.links u v.ordered
        (λ j. ground (arith, stored u j n' (store u n c.workers), stored u j n c.workers));
  assumed_known = v.assumed_known;
  dated = v.dated;
  not_idle = λ j m e. elim (Bool-cases (same u j)) [
    | inl here ↦
        let it : n' ≡ m = ground (arith, lookup-store u j n' (store u n c.workers), here) in
        rw (← it) busy
    | inr away ↦ v.not_idle j m (
        ground
          (arith, lookup-store u j n' (store u n c.workers), lookup-store u j n c.workers, away))
  ];
}

add_worker-Inv : (c : Cache) (worker : WorkerObject) → Inv c → Inv (add_worker c worker).0
unfolding add_worker
add_worker-Inv c worker v =
    let n = (info_of c worker.uid).0 in
    let generation = (info_of c worker.uid).1 in
    rw (add_worker, moved_to_head c worker.uid n generation (links_of c worker.uid))
      (set_info-Inv c worker.uid n (record n { worker = some worker; generation = generation + 1 })
        _ _ v (stages_of_info c worker.uid) refl refl)

-- UpdateWorker of a nil worker panics for a new worker with a zone.
abbrev pub Zoned : Option WorkerObject → WorkerObject → Type 0
Zoned none new = same "" (get_zone_key new.labelled) ≡ true
Zoned (some old) new = Unit

tree_updated :
    (tree : WorkerTree) (old : Option WorkerObject) (new : WorkerObject)
    → Zoned old new
    → Returns (λ t. Unit {0}) (WorkerTree.update_worker tree (labelled_of old) new.labelled)
unfolding WorkerTree.update_worker
tree_updated tree none new zoned = rw (WorkerTree.update_worker, zoned) (returns tt)
tree_updated tree (some old) new zoned =
    elim (Bool-cases (same (get_zone_key old.labelled) (get_zone_key new.labelled))) [
      | inl stays ↦ rw (WorkerTree.update_worker, stays) (returns tt)
      | inr moves ↦ rw (WorkerTree.update_worker, moves) (returns tt)
    ]

update_worker-Inv :
    (c : Cache) (old : Option WorkerObject) (new : WorkerObject)
    → Zoned old new
    → Inv c
    → Returns (λ r. Inv r.0) (update_worker c old new)
unfolding update_worker
update_worker-Inv c old new zoned v =
    let n = (info_of c new.uid).0 in
    let generation = (info_of c new.uid).1 in
    rw (update_worker, moved_to_head c new.uid n generation (links_of c new.uid))
      (Returns-bind (tree_updated _ old new zoned) (λ tree w. returns (
        set_info-Inv c new.uid n (record n { worker = some new; generation = generation + 1 }) tree
          _ v (stages_of_info c new.uid) refl refl)))

remove_worker-Inv : (c : Cache) (worker : WorkerObject) → Inv c → Inv (remove_worker c worker).0
unfolding remove_worker remove_from_list
remove_worker-Inv c worker v = elim (Option-cases (lookup worker.uid c.workers)) [
  | inl missing ↦ rw (remove_worker, missing) v
  | inr (n, there) ↦
      let u = worker.uid in
      let n' : WorkerInfo = record n { worker = none; generation = c.generation + 1 } in
      let stays = stages_stay u n' c.workers (sym (ap stages_in there)) in
      elim (Bool-cases (length n.stages == 0)) [
        | inr busy ↦
            rw (remove_worker, there, busy, moved_to_head c u n' (c.generation + 1) c.links)
              (record {
                placed =
                    Placed-same (stages_at c.workers) (stages_at (store u n' c.workers))
                      c.stage_states v.placed stays;
                ordered = with_info-Ordered c u n' n v.ordered there;
                assumed_known = v.assumed_known;
                dated = v.dated;
                not_idle = store-Busy u n' c.workers (ground (arith, busy)) v.not_idle;
              })
        | inl idle ↦
            let listed : is_some (lookup u (store u n' c.workers)) ≡ true =
              ground (arith, stored u u n' c.workers, same_refl u) in
            rw (remove_worker, there, idle, remove_from_list, listed)
              (record {
                placed =
                    Placed-same (stages_at c.workers) (stages_at (erase u (store u n' c.workers)))
                      c.stage_states v.placed
                      (λ j. elim (Bool-cases (same u j)) [
                        | inl here ↦
                            ap stages_in (rw here at (lookup-erase u j (store u n' c.workers)))
                            ∙ sym (no_stages n.stages true (ground (arith, idle)))
                            ∙ sym (ap stages_in there)
                            ∙ ap (stages_at c.workers) (same_eq u j here)
                        | inr away ↦
                            ap stages_in (rw away at (lookup-erase u j (store u n' c.workers)))
                            ∙ stays j
                      ]);
                ordered =
                    Ordered-drop c.workers (erase u (store u n' c.workers)) c.links u v.ordered
                      (ap is_some there)
                      (λ j. ground (
                        arith,
                        lookup-erase u j (store u n' c.workers),
                        lookup-store u j n' c.workers,
                      ));
                assumed_known = v.assumed_known;
                dated = v.dated;
                not_idle = λ j m e. v.not_idle j m (
                    ground (
                      arith,
                      lookup-erase u j (store u n' c.workers),
                      lookup-store u j n' c.workers,
                    ));
              })
      ]
]

-- A call of a method. The old worker of UpdateWorker may be nil; no other argument is.
pub data Call : Type 0 where
  call_assume call_forget call_add call_remove : Stage → Call
  call_finish : Stage → ℕ → Call
  call_update : Stage → Stage → Call
  call_add_worker call_remove_worker : WorkerObject → Call
  call_update_worker : Option WorkerObject → WorkerObject → Call

abbrev pub end_of : Cache × Option CacheError → Result
end_of r = finished r.0 r.1

unfoldable pub run_call : Cache → Call → Run Result
run_call c (call_assume stage) = ok (end_of (assume_stage c stage))
run_call c (call_finish stage now) = ok (end_of (finish_binding c stage now))
run_call c (call_forget stage) = forget_stage c stage >>= λ r. ok (end_of r)
run_call c (call_add stage) = add_known_stage c stage >>= λ r. ok (end_of r)
run_call c (call_update old new) = update_stage c old new
run_call c (call_remove stage) = remove_known_stage c stage
run_call c (call_add_worker worker) = ok (finished (add_worker c worker).0 none)
run_call c (call_update_worker old new) = update_worker c old new >>= λ r. ok (finished r.0 none)
run_call c (call_remove_worker worker) = ok (end_of (remove_worker c worker))

unfoldable pub run_calls : Result → List Call → Run Result
run_calls r [] = ok r
run_calls exited (call ∷ calls) = ok exited
run_calls (finished c err) (call ∷ calls) = run_call c call >>= λ r. run_calls r calls

-- Updates are consistent with what the cache has at that time, and no worker with a zone is updated
-- from nil.
abbrev pub ProperCall : Cache → Call → Type 0
ProperCall c (call_update old new) = Consistent c old new
ProperCall c (call_assume stage) = Unit
ProperCall c (call_finish stage now) = Unit
ProperCall c (call_forget stage) = Unit
ProperCall c (call_add stage) = Unit
ProperCall c (call_remove stage) = Unit
ProperCall c (call_add_worker worker) = Unit
ProperCall c (call_update_worker old new) = Zoned old new
ProperCall c (call_remove_worker worker) = Unit

abbrev pub Proper : Result → List Call → Type 0
Proper r [] = Unit
Proper exited (call ∷ calls) = Unit
Proper (finished c err) (call ∷ calls) =
    ProperCall c call × ((r : Result) → run_call c call ≡ ok r → Proper r calls)

run_call-Kept :
    (c : Cache) (call : Call) → ProperCall c call → Inv c → Returns Kept (run_call c call)
unfolding run_call
run_call-Kept c (call_assume stage) p v = returns (assume_stage-Inv c stage v)
run_call-Kept c (call_finish stage now) p v = returns (finish_binding-Inv c stage now v)
run_call-Kept c (call_forget stage) p v =
    Returns-bind (forget_stage-Inv c stage v) (λ r w. returns w)
run_call-Kept c (call_add stage) p v =
    Returns-bind (add_known_stage-Inv c stage v) (λ r w. returns w)
run_call-Kept c (call_update old new) p v = update_stage-Kept c old new p v
run_call-Kept c (call_remove stage) p v = remove_known_stage-Kept c stage v
run_call-Kept c (call_add_worker worker) p v = returns (add_worker-Inv c worker v)
run_call-Kept c (call_update_worker old new) p v =
    Returns-bind (update_worker-Inv c old new p v) (λ r w. returns w)
run_call-Kept c (call_remove_worker worker) p v = returns (remove_worker-Inv c worker v)

run_calls-Kept :
    (r : Result) (calls : List Call) → Proper r calls → Kept r → Returns Kept (run_calls r calls)
unfolding run_calls
run_calls-Kept r [] p v = returns v
run_calls-Kept exited (call ∷ calls) p v = returns tt
run_calls-Kept (finished c err) (call ∷ calls) (first, later) v =
    let (r, there, w) = Returns-value (run_call-Kept c call first v) in
    rw there (run_calls-Kept r calls (later r there) w)

pub new_cache-Inv : (ttl : ℕ) → Inv (new_cache ttl)
unfolding new_cache lookup has
new_cache-Inv ttl = record {
  dated = λ key st h e f. absurd cc;
  placed = record { listed = λ u key. refl; once = λ u. tt; keyed = λ key st e. absurd cc };
  ordered = record { order = []; linked = (refl, tt); in_order = λ u. refl; order_once = tt };
  assumed_known = λ key h. absurd cc;
  not_idle = λ u n e. absurd cc;
}

-- Any history of calls of a new cache, in which each UpdateStage gives the same UID twice and the old
-- stage with the worker that the cache has for it, and each UpdateWorker a new worker without a zone or
-- an old one that is not nil, never panics; it may end with os.Exit. Otherwise each stage that the cache
-- has a state for is listed with its worker, and with no other, once, and no other stage is listed;
-- assumed stages have a state, and a deadline if their binding is finished and stages expire; the
-- pointers link the workers into a list that has each once, from headWorker on; and every worker without
-- an object has stages.
pub cache_histories-Kept :
    (ttl : ℕ) (calls : List Call)
    → Proper (finished (new_cache ttl) none) calls
    → Returns Kept (run_calls (finished (new_cache ttl) none) calls)
cache_histories-Kept ttl calls p =
    run_calls-Kept (finished (new_cache ttl) none) calls p (new_cache-Inv ttl)
