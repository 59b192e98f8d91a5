-- ===== src/Scheduler/Queue/NilOld.antt =====
-- Update without an old stage.
use flowline.Base.{
  ℕ, ◌≡◌, ◌⊎◌, refl, true, false, none, some, is_some, arith, Option-cases, inl, inr,
}
use flowline.Base.Keys.{text_key, lookup}
use flowline.Base.Run.{ok, panic}
use flowline.Scheduler.Types.{Stage}
use flowline.Scheduler.Nominator
use flowline.Scheduler.Heap.Invariant.{IsOrder}
use flowline.Scheduler.Queue.{Config, PriorityQueue, broadcast, new_queued_stage_info}
use flowline.Scheduler.Queue.Calls.{update, update_rest, update_new, update_unschedulable}
use flowline.Scheduler.Queue.Places.{Naming, Inv, active_at, add_active_lem}

module _ (c : Config) (order : IsOrder c.less_func) (n : Naming) where
  -- Update without an old stage, in a state with the invariant, panics exactly if the stage is
  -- among the unschedulable ones; else the stage is active afterwards.
  pub update_nil_old :
      (q : PriorityQueue) (new : Stage) (now : ℕ)
      → Inv c order n q
      → ((update c q none new now ≡ panic) × (is_some (lookup new.uid q.unschedulable) ≡ true))
        ⊎ ((q' : PriorityQueue) × (update c q none new now ≡ ok (q', none))
            × (active_at c order n q' new.name ≡ some (new_queued_stage_info new now))
            × (is_some (lookup new.uid q.unschedulable) ≡ false))
  unfolding update update_rest update_new update_unschedulable new_queued_stage_info
  update_nil_old q new now v = elim (Option-cases (lookup new.uid q.unschedulable)) [
    | inl missing ↦
        let (a, ran, w) =
          add_active_lem c order n q (new_queued_stage_info new now) v.active_valid in
        inr (
          broadcast
              (record q { active_q = a; nominator = Nominator.add c.lister q.nominator new none }),
          rw (missing, ran, update, update_rest, update_new) refl,
          ground (arith, w.contents new.name),
          ground arith,
        )
    | inr (found, there) ↦
        inl (rw (there, update, update_rest, update_unschedulable) refl, ground arith)
  ]
