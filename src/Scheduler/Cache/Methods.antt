-- ===== src/Scheduler/Cache/Methods.antt =====
-- The methods for stages keep the invariant.
use Prim.Native.String.{String}
use flowline.Base.{
  ℕ, ◌+◌, ◌≡◌, refl, ap, sym, ◌∙◌, true, false, not, ◌&&◌, ◌==◌, List, none, some, is_some,
  if◌then◌else◌, arith, Option-cases, Bool-cases, inl, inr,
}
use flowline.Base.Keys.{
  text_key, same, same_eq, same_refl, has, has-remove, lookup, store, lookup-store, lookup-erase,
}
use flowline.Base.Run.{Returns, returns, Returns-bind, Returns-weaken}
use flowline.Scheduler.Types.{Stage}
use flowline.Scheduler.Cache.{
  StageState, Cache, Result, finished, exited, get_stage_key, update_both,
}
use flowline.Scheduler.Cache.Api.{
  assume_stage, finish_binding, forget_stage, add_known_stage, update_stage, remove_known_stage,
}
use flowline.Scheduler.Cache.Invariant.{Placed, Inv, stages_at}
use flowline.Scheduler.Cache.Calls.{key_of_stage, add_stage-Inv}
use flowline.Scheduler.Cache.Removals.{remove_stage-Removed}

-- Another state of a stage, with the same worker.
Placed-store :
    (stages : String → List Stage) (states : List (String × StageState)) (key : String)
    (curr new : StageState)
    → Placed stages states
    → lookup key states ≡ some curr
    → new.stage.worker_uid ≡ curr.stage.worker_uid
    → new.stage.uid ≡ key
    → Placed stages (store key new states)
Placed-store stages states key curr new v there on it = record {
  listed = λ u k. elim (Bool-cases (same key k)) [
    | inl own ↦ ground (
      arith,
      lookup-store key k new states,
      own,
      v.listed u k,
      there,
      ap (λ j. lookup j states) (same_eq key k own),
      ap (λ x. same x u) on,
    )
    | inr other ↦ ground (arith, lookup-store key k new states, other, v.listed u k)
  ];
  once = v.once;
  keyed = λ k st found. elim (Bool-cases (same key k)) [
    | inl own ↦
        let found_new : new ≡ st = ground (arith, lookup-store key k new states, own) in
        rw (← found_new, ← same_eq key k own) (it, (v.keyed key curr there).1)
    | inr other ↦ v.keyed k st (ground (arith, lookup-store key k new states, other))
  ];
}

store_known :
    (key : String) (new : StageState) (states : List (String × StageState)) (k : String)
    → is_some (lookup k states) ≡ true
    → is_some (lookup k (store key new states)) ≡ true
store_known key new states k h = ground (arith, lookup-store key k new states)

pub assume_stage-Inv : (c : Cache) (stage : Stage) → Inv c → Inv (assume_stage c stage).0
unfolding assume_stage
assume_stage-Inv c stage v = elim (Option-cases (get_stage_key stage)) [
  | inl missing ↦ rw (assume_stage, missing) v
  | inr (key, there) ↦
      let (it, keyed) = key_of_stage stage key there in
      elim (Option-cases (lookup key c.stage_states)) [
        | inl new ↦ rw (assume_stage, there, new) (add_stage-Inv c stage true v keyed (rw it new))
        | inr (curr, known) ↦ rw (assume_stage, there, known) v
      ]
]

pub finish_binding-Inv :
    (c : Cache) (stage : Stage) (now : ℕ) → Inv c → Inv (finish_binding c stage now).0
unfolding finish_binding
finish_binding-Inv c stage now v = elim (Option-cases (get_stage_key stage)) [
  | inl missing ↦ rw (finish_binding, missing) v
  | inr (key, there) ↦ elim (Option-cases (lookup key c.stage_states)) [
    | inl new ↦ rw (finish_binding, there, new) v
    | inr (curr, known) ↦ elim (Bool-cases (has c.assumed_stages key)) [
      | inr settled ↦ rw (finish_binding, there, known, settled) v
      | inl assumed ↦
          let new : StageState = record curr {
            deadline = if c.ttl == 0 then none else some (now + c.ttl);
            binding_finished = true;
          } in
          rw (finish_binding, there, known, assumed)
            (record {
              dated = λ k st h e f. elim (Bool-cases (same key k)) [
                | inl own ↦
                    let it : new ≡ st =
                      ground (arith, lookup-store key k new c.stage_states, own) in
                    ap (λ x. is_some x.deadline) (sym it) ∙ ground (arith, f)
                | inr other ↦
                    v.dated k st h (ground (arith, lookup-store key k new c.stage_states, other)) f
              ];
              placed =
                  Placed-store (stages_at c.workers) c.stage_states key curr _ v.placed known refl
                    (v.placed.keyed key curr known).0;
              ordered = v.ordered;
              assumed_known = λ k h. store_known key _ c.stage_states k (v.assumed_known k h);
              not_idle = v.not_idle;
            })
    ]
  ]
]

pub forget_stage-Inv :
    (c : Cache) (stage : Stage) → Inv c → Returns (λ r. Inv r.0) (forget_stage c stage)
unfolding forget_stage
forget_stage-Inv c stage v = elim (Option-cases (get_stage_key stage)) [
  | inl missing ↦ rw (forget_stage, missing) (returns v)
  | inr (key, there) ↦ elim (Option-cases (lookup key c.stage_states)) [
    | inl new ↦ rw (forget_stage, there, new) (returns v)
    | inr (curr, known) ↦ elim (Bool-cases (same curr.stage.worker_uid stage.worker_uid)) [
      | inr other ↦ rw (forget_stage, there, known, other) (returns v)
      | inl on ↦ elim (Bool-cases (has c.assumed_stages key)) [
        | inr settled ↦ rw (forget_stage, there, known, on, settled) (returns v)
        | inl assumed ↦
            let (it, keyed) = key_of_stage stage key there in
            rw (forget_stage, there, known, on, assumed)
              (Returns-weaken
                (remove_stage-Removed c stage curr v keyed (rw it known)
                  (same_eq curr.stage.worker_uid stage.worker_uid on))
                (λ r w. w.0))
      ]
    ]
  ]
]

update_both-Inv :
    (c : Cache) (old new : Stage) (curr : StageState)
    → Inv c
    → same old.uid "" ≡ false
    → lookup old.uid c.stage_states ≡ some curr
    → curr.stage.worker_uid ≡ old.worker_uid
    → new.uid ≡ old.uid
    → Returns (λ r. Inv r.0) (update_both c old new)
unfolding update_both
update_both-Inv c old new curr v keyed known on it =
    Returns-bind (remove_stage-Removed c old curr v keyed known on) (λ r w.
      let gone : lookup new.uid r.0.stage_states ≡ none =
        rw (it, w.2)
          (ground (arith, lookup-erase old.uid old.uid c.stage_states, same_refl old.uid)) in
      rw w.1 (returns (add_stage-Inv r.0 new false w.0 (rw it keyed) gone)))

pub add_known_stage-Inv :
    (c : Cache) (stage : Stage) → Inv c → Returns (λ r. Inv r.0) (add_known_stage c stage)
unfolding add_known_stage
add_known_stage-Inv c stage v = elim (Option-cases (get_stage_key stage)) [
  | inl missing ↦ rw (add_known_stage, missing) (returns v)
  | inr (key, there) ↦
      let (it, keyed) = key_of_stage stage key there in
      elim (Option-cases (lookup key c.stage_states)) [
        | inl new ↦
            rw (add_known_stage, there, new)
              (returns (add_stage-Inv c stage false v keyed (rw it new)))
        | inr (curr, known) ↦ elim (Bool-cases (has c.assumed_stages key)) [
          | inr settled ↦ rw (add_known_stage, there, known, settled) (returns v)
          | inl assumed ↦ elim (Bool-cases (same curr.stage.worker_uid stage.worker_uid)) [
            | inl on ↦
                rw (add_known_stage, there, known, assumed, on)
                  (returns (record {
                    dated = λ k st h e f.
                        v.dated k st (ground (arith, has-remove c.assumed_stages key k))
                          (ground (
                            arith,
                            has-remove c.assumed_stages key k,
                            lookup-store key k (record curr { deadline = none; stage = stage })
                                c.stage_states,
                          ))
                          f;
                    placed =
                        Placed-store (stages_at c.workers) c.stage_states key curr _ v.placed known
                          (sym (same_eq curr.stage.worker_uid stage.worker_uid on)) it;
                    ordered = v.ordered;
                    assumed_known = λ k h.
                        store_known key _ c.stage_states k
                          (v.assumed_known k (ground (arith, has-remove c.assumed_stages key k)));
                    not_idle = v.not_idle;
                  }))
            | inr other ↦
                let (curr_it, key_keyed) = v.placed.keyed key curr known in
                rw (add_known_stage, there, known, assumed, other)
                  (Returns-bind
                    (update_both-Inv c curr.stage stage curr v (rw curr_it key_keyed)
                      (ap (λ k. lookup k c.stage_states) curr_it ∙ known) refl (it ∙ sym curr_it))
                    (λ r w. returns w))
          ]
        ]
      ]
]

-- A call that exits leaves nothing to keep.
abbrev pub Kept : Result → Type 0
Kept exited = Unit
Kept (finished c err) = Inv c

-- The old stage of an update is on the worker that the cache has for it, and the new one has its UID.
abbrev pub Consistent : Cache → Stage → Stage → Type 0
Consistent c old new =
    (new.uid ≡ old.uid)
    × ((curr : StageState)
        → lookup old.uid c.stage_states ≡ some curr
        → curr.stage.worker_uid ≡ old.worker_uid)

pub update_stage-Kept :
    (c : Cache) (old new : Stage)
    → Consistent c old new
    → Inv c
    → Returns Kept (update_stage c old new)
unfolding update_stage
update_stage-Kept c old new p v = elim (Option-cases (get_stage_key old)) [
  | inl missing ↦ rw (update_stage, missing) (returns v)
  | inr (key, there) ↦
      let (it, keyed) = key_of_stage old key there in
      elim (Option-cases (lookup key c.stage_states)) [
        | inl unknown ↦ rw (update_stage, there, unknown) (returns v)
        | inr (curr, known) ↦ elim (Bool-cases (has c.assumed_stages key)) [
          | inl assumed ↦ rw (update_stage, there, known, assumed) (returns v)
          | inr settled ↦ elim (Bool-cases (same curr.stage.worker_uid new.worker_uid)) [
            | inr other ↦ rw (update_stage, there, known, settled, other) (returns tt)
            | inl on ↦
                let known' : lookup old.uid c.stage_states ≡ some curr = rw it known in
                rw (update_stage, there, known, settled, on)
                  (Returns-bind
                    (update_both-Inv c old new curr v keyed known' (p.1 curr known') p.0)
                    (λ r w. returns w))
          ]
        ]
      ]
]

pub remove_known_stage-Kept :
    (c : Cache) (stage : Stage) → Inv c → Returns Kept (remove_known_stage c stage)
unfolding remove_known_stage
remove_known_stage-Kept c stage v = elim (Option-cases (get_stage_key stage)) [
  | inl missing ↦ rw (remove_known_stage, missing) (returns v)
  | inr (key, there) ↦ elim (Option-cases (lookup key c.stage_states)) [
    | inl unknown ↦ rw (remove_known_stage, there, unknown) (returns v)
    | inr (curr, known) ↦
        elim (Bool-cases
          (not (same curr.stage.worker_uid stage.worker_uid) && not (same stage.worker_uid ""))) [
            | inl corrupt ↦ rw (remove_known_stage, there, known, corrupt) (returns tt)
            | inr fits ↦
                let (curr_it, key_keyed) = v.placed.keyed key curr known in
                rw (remove_known_stage, there, known, fits)
                  (Returns-bind
                    (remove_stage-Removed c curr.stage curr v (rw curr_it key_keyed)
                      (ap (λ k. lookup k c.stage_states) curr_it ∙ known) refl)
                    (λ r w. returns w.0))
          ]
  ]
]
