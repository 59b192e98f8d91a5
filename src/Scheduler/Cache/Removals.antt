-- ===== src/Scheduler/Cache/Removals.antt =====
-- What removeStage keeps, and what it leaves.
use Prim.Native.String.{String}
use flowline.Base.{
  ◌+◌, ◌≡◌, refl, ap, sym, ◌∙◌, Bool, true, false, not, ◌&&◌, ◌||◌, ◌==◌, length, List, [], ◌∷◌,
  Option, none, some, is_some, arith, Option-cases, Bool-cases, inl, inr,
}
use flowline.Base.Keys.{
  text_key, same, same_refl, has, has-remove, remove, lookup, store, erase, lookup-store,
  lookup-erase,
}
use flowline.Base.Run.{Returns, returns}
use flowline.Scheduler.Types.{Stage}
use flowline.Scheduler.Cache.{
  WorkerInfo, StageState, Cache, CacheError, remove_from_list, without_stage, remove_stage,
  forget_key,
}
use flowline.Scheduler.Cache.Stages.{uids, Without, without_stage_lem}
use flowline.Scheduler.Cache.Pointers.{remove_item}
use flowline.Scheduler.Cache.Invariant.{
  stages_in, stages_at, on_worker, Dated, Inv, Ordered-drop, Placed-remove, stages_at-store,
  all_Keyed,
}
use flowline.Scheduler.Cache.Calls.{
  stored, keyed_stage, with_info, moved_to_head, with_info-Ordered, store-Busy,
}

forget_known :
    (c : Cache) (key : String)
    → Inv c
    → (k : String) → has (remove c.assumed_stages key) k ≡ true
    → is_some (lookup k (erase key c.stage_states)) ≡ true
forget_known c key v k h =
    ground (
      arith,
      v.assumed_known k,
      has-remove c.assumed_stages key k,
      lookup-erase key k c.stage_states,
    )

forget-Dated :
    (c : Cache) (key : String)
    → Inv c
    → Dated c.ttl (remove c.assumed_stages key) (erase key c.stage_states)
forget-Dated c key v k st h e f =
    v.dated k st (ground (arith, has-remove c.assumed_stages key k))
      (ground (arith, lookup-erase key k c.stage_states)) f

-- What removeStage leaves.
abbrev pub Removed : Cache → String → Cache × Option CacheError → Type 0
Removed c key r = Inv r.0 × (r.1 ≡ none) × (r.0.stage_states ≡ erase key c.stage_states)

-- removeStage of a stage that is listed with its worker, once the worker info is known.
module _ (c : Cache) (key worker : String) (state : StageState) (n : WorkerInfo) (v : Inv c)
    (there : lookup key c.stage_states ≡ some state) (on : state.stage.worker_uid ≡ worker)
    (info : lookup worker c.workers ≡ some n) (w : Without key (stages_at c.workers worker)) where
  abbrev n' : WorkerInfo
  n' = record n { stages = w.rest; generation = c.generation + 1 }

  moved-Inv :
      is_some n.worker || not (length w.rest == 0) ≡ true
      → Inv (forget_key (with_info c worker n' (c.generation + 1) c.links) key)
  moved-Inv busy = record {
    placed =
        Placed-remove (stages_at c.workers) (stages_at (store worker n' c.workers)) c.stage_states
          key worker state w.rest v.placed there on w.members w.once
          (λ u. stages_at-store worker u n' c.workers);
    ordered = with_info-Ordered c worker n' n v.ordered info;
    dated = forget-Dated c key v;
    assumed_known = forget_known c key v;
    not_idle = store-Busy worker n' c.workers busy v.not_idle;
  }

  abbrev dropped : Cache
  dropped = record c {
    links = remove_item c.links worker;
    workers = erase worker (store worker n' c.workers);
    generation = c.generation + 1;
  }

  dropped-Inv : w.rest ≡ [] → Inv (forget_key dropped key)
  dropped-Inv empty = record {
    placed =
        Placed-remove (stages_at c.workers) (stages_at (erase worker (store worker n' c.workers)))
          c.stage_states key worker state w.rest v.placed there on w.members w.once
          (λ u. elim (Bool-cases (same worker u)) [
            | inl here ↦ rw here (
                ap stages_in (rw here at (lookup-erase worker u (store worker n' c.workers)))
                ∙ sym empty)
            | inr away ↦ rw away (
                ap stages_in (
                  (rw away at (lookup-erase worker u (store worker n' c.workers)))
                  ∙ (rw away at (lookup-store worker u n' c.workers))))
          ]);
    ordered =
        Ordered-drop c.workers (erase worker (store worker n' c.workers)) c.links worker v.ordered
          (ap is_some info)
          (λ j. ground (
            arith,
            lookup-erase worker j (store worker n' c.workers),
            lookup-store worker j n' c.workers,
          ));
    dated = forget-Dated c key v;
    assumed_known = forget_known c key v;
    not_idle = λ u m e. v.not_idle u m (
        ground (
          arith,
          lookup-erase worker u (store worker n' c.workers),
          lookup-store worker u n' c.workers,
        ));
  }

pub no_stages : (l : List Stage) (b : Bool) → length l == 0 && b ≡ true → l ≡ []
no_stages [] b e = refl
no_stages (s ∷ l) b e = absurd (ground arith)

listed_key :
    (c : Cache)
    → Inv c
    → (u k : String) → has (uids (stages_at c.workers u)) k ≡ true
    → same k "" ≡ false
listed_key c v u k h = elim (Option-cases (lookup k c.stage_states)) [
  | inl missing ↦
      let none_listed = ap (λ o. on_worker o u) missing in
      absurd (ground (arith, v.placed.listed u k, none_listed))
  | inr (st, there) ↦ (v.placed.keyed k st there).1
]

remove_with_info :
    (c : Cache) (stage : Stage) (state : StageState) (n : WorkerInfo)
    → Inv c
    → same stage.uid "" ≡ false
    → lookup stage.uid c.stage_states ≡ some state
    → state.stage.worker_uid ≡ stage.worker_uid
    → lookup stage.worker_uid c.workers ≡ some n
    → Without stage.uid (stages_at c.workers stage.worker_uid)
    → Returns (Removed c stage.uid) (remove_stage c stage)
unfolding remove_stage remove_from_list
remove_with_info c stage state n v keyed there on info w =
    let key = stage.uid in
    let worker = stage.worker_uid in
    let made : without_stage n.stages key ≡ some w.rest = rw (info) at w.made in
    let n'' : WorkerInfo = record n { stages = w.rest; generation = c.generation + 1 } in
    elim (Bool-cases (length w.rest == 0 && not (is_some n.worker))) [
      | inl idle ↦
          let stays : is_some (lookup worker (store worker n'' c.workers)) ≡ true =
            ground (arith, stored worker worker n'' c.workers, same_refl worker) in
          rw (remove_stage, keyed_stage stage keyed, info, made, idle, remove_from_list, stays)
            (returns (
              dropped-Inv c key worker state n v there on info w
                  (no_stages w.rest (not (is_some n.worker)) idle),
              refl,
              refl,
            ))
      | inr busy ↦
          rw
            (
              remove_stage,
              keyed_stage stage keyed,
              info,
              made,
              busy,
              moved_to_head c worker n'' (c.generation + 1) c.links,
            )
            (returns (moved-Inv c key worker state n v there on info w (ground arith), refl, refl))
    ]

-- removeStage of a stage for which the cache has a state with that worker.
pub remove_stage-Removed :
    (c : Cache) (stage : Stage) (state : StageState)
    → Inv c
    → same stage.uid "" ≡ false
    → lookup stage.uid c.stage_states ≡ some state
    → state.stage.worker_uid ≡ stage.worker_uid
    → Returns (Removed c stage.uid) (remove_stage c stage)
unfolding has
remove_stage-Removed c stage state v keyed there on =
    let listed : has (uids (stages_at c.workers stage.worker_uid)) stage.uid ≡ true =
      v.placed.listed stage.worker_uid stage.uid
      ∙ ap (λ o. on_worker o stage.worker_uid) there
      ∙ ap (λ x. same x stage.worker_uid) on
      ∙ same_refl stage.worker_uid in
    let w =
      without_stage_lem stage.uid (stages_at c.workers stage.worker_uid)
        (all_Keyed _ (listed_key c v stage.worker_uid)) (v.placed.once stage.worker_uid) listed in
    elim (Option-cases (lookup stage.worker_uid c.workers)) [
      | inl missing ↦
          let none_listed = ap (λ o. has (uids (stages_in o)) stage.uid) missing in
          absurd (ground (arith, listed, none_listed))
      | inr (n, info) ↦ remove_with_info c stage state n v keyed there on info w
    ]
