-- ===== src/Scheduler/Queue/Take.antt =====
-- Pop, Add and AddUnschedulableIfNotPresent against the three places of a queue.
use Prim.Native.String.{String}
use flowline.Base.{
  ℕ, ◌+◌, ◌≡◌, ◌≢◌, subst, sym, refl, Bool, true, false, if◌then◌else◌, ◌==◌, length, get_elem?-lt,
  none, some, List, arith, Option-cases, inl, inr,
}
use flowline.Base.Keys.{
  text_key, same, lookup, erase, lookup-erase, keys, Distinct, keys-erase-Distinct,
}
use flowline.Base.Run.{Returns, returns, Returns-if, Returns-bind}
use flowline.Scheduler.Types.{Stage, StageInfo}
use flowline.Scheduler.Heap.{HeapData}
use flowline.Scheduler.Heap.Invariant.{IsOrder}
use flowline.Scheduler.Heap.Remove.{pop_head_correct, stored_item}
use flowline.Scheduler.Queue.{Config, PriorityQueue, queue_closed, key_func, new_queued_stage_info}
use flowline.Scheduler.Queue.Calls.{Popped, blocked, failed, popped, pop, add}
use flowline.Scheduler.Queue.Places.{
  Naming, Proper, Inv, places, active_at, backoff_at, parked_at, ActiveChange, BackoffChange,
  add_active_lem, delete_backoff_lem,
}

module _ (c : Config) (order : IsOrder c.less_func) (n : Naming) where
  abbrev NoneActive : PriorityQueue → Type 0
  NoneActive q = (k : String) → active_at c order n q k ≡ none

  -- How Pop may end.
  pub data PopEnds (q : PriorityQueue) : PriorityQueue → Popped → Type 0 where
    waits : NoneActive q → q.closed ≡ false → PopEnds q q blocked
    ends : NoneActive q → q.closed ≡ true → PopEnds q q (failed queue_closed)
    takes :
        (k : String) (i : StageInfo) (h : HeapData StageInfo)
        → active_at c order n q k ≡ some i
        → ((j : String) (y : StageInfo)
            → active_at c order n q j ≡ some y
            → c.less_func y i ≡ false)
        → ActiveChange c order n (λ j. if same k j then none else active_at c order n q j) h
        → PopEnds q
            (record q { active_q = h; scheduling_cycle = q.scheduling_cycle + 1 })
            (popped (record i { attempts = i.attempts + 1 }))

  none_active :
      (q : PriorityQueue) → Inv c order n q → (length q.active_q.queue == 0) ≡ true → NoneActive q
  none_active q v e k = elim (Option-cases (active_at c order n q k)) [
    | inl none_there ↦ none_there
    | inr (y, there) ↦
        let (it, found, same_obj) = stored_item c.less_func key_func order q.active_q k y there in
        absurd (
          ground (
            arith,
            get_elem?-lt q.active_q.queue it.index k
                (v.active_valid.inv.listed k it.index (ground arith)),
          ))
  ]

  pop_ends :
      (q : PriorityQueue) (b : Bool)
      → q.closed ≡ b
      → NoneActive q
      → PopEnds q q (if b then failed queue_closed else blocked)
  pop_ends q true e none_there = ends none_there e
  pop_ends q false e none_there = waits none_there e

  -- Pop, in a state with the invariant, never panics. If no stage is active it changes nothing and
  -- waits, or ends with an error if the queue is closed. Otherwise it takes out an active stage that
  -- no active stage comes before, counts one attempt for it and one scheduling cycle.
  pub pop_correct :
      (q : PriorityQueue) → Inv c order n q → Returns (λ (q', r). PopEnds q q' r) (pop c q)
  unfolding pop
  pop_correct q v =
      Returns-if (length q.active_q.queue == 0)
        (λ empty. returns (pop_ends q q.closed refl (none_active q v empty)))
        (λ some_active.
          Returns-bind
            (pop_head_correct c.less_func key_func order q.active_q v.active_valid (ground arith))
            λ (h, obj, err) (fine, (k, x, same_obj, w, least)).
              rw (fine, same_obj)
                (returns
                  (takes k x h w.held least (record { valid = w.valid; contents = w.contents }))))

  -- A state after a stage was put into one of the places: the others stay where they are.
  pub record Placed (q : PriorityQueue) (s : Stage) (q' : PriorityQueue) : Type 0 where
    pub inv : Inv c order n q'
    pub once : places c order n q' s.name ≡ 1
    pub others_active :
        (k : String) → k ≢ s.name → active_at c order n q' k ≡ active_at c order n q k
    pub others_backoff :
        (k : String) → k ≢ s.name → backoff_at c order n q' k ≡ backoff_at c order n q k
    pub others_parked :
        (k : String) → k ≢ s.name → parked_at c order n q' k ≡ parked_at c order n q k
    pub cycle : q'.scheduling_cycle ≡ q.scheduling_cycle

  abbrev AddedActive : PriorityQueue → Stage → ℕ → PriorityQueue → Type 0
  AddedActive q s now q' =
      Placed q s q' × (active_at c order n q' s.name ≡ some (new_queued_stage_info s now))

  added :
      (q : PriorityQueue) (s : Stage) (now : ℕ) (a b : HeapData StageInfo)
      (m : List (String × StageInfo))
      → Inv c order n q
      → Proper c order n s
      → ActiveChange c order n
          (λ j.
            if same s.name j then some (new_queued_stage_info s now) else active_at c order n q j)
          a
      → BackoffChange c order n (λ j. if same s.name j then none else backoff_at c order n q j) b
      → Distinct (keys m)
      → ((u : String) → lookup u m ≡ (if same s.uid u then none else lookup u q.unschedulable))
      → AddedActive q s now (record q { active_q = a; backoff_q = b; unschedulable = m })
  unfolding new_queued_stage_info
  added q s now a b m v p wa wb once found = (
    record {
      inv = record {
        active_valid = wa.valid;
        backoff_valid = wb.valid;
        parked_once = once;
        parked_own = λ u i e. ground (arith, found u, v.parked_own u i);
        parked_proper = λ u i e. ground (arith, found u, v.parked_proper u i);
      };
      once = ground (arith, wa.contents s.name, wb.contents s.name, found (n.uid_of s.name));
      others_active = λ k apart. ground (arith, wa.contents k);
      others_backoff = λ k apart. ground (arith, wb.contents k);
      others_parked = λ k apart. ground (arith, found (n.uid_of k), n.injective s.name k);
      cycle = refl;
    },
    ground (arith, wa.contents s.name),
  )

  AddedActive-other :
      (q : PriorityQueue) (s : Stage) (now : ℕ) (q' : PriorityQueue) (r : PriorityQueue)
      → r ≡ record q' { nominator = r.nominator; broadcasts = r.broadcasts }
      → AddedActive q s now q'
      → AddedActive q s now r
  AddedActive-other q s now q' r e (w, there) = subst (AddedActive q s now) (sym e) (
    record {
      inv = record {
        active_valid = w.inv.active_valid;
        backoff_valid = w.inv.backoff_valid;
        parked_once = w.inv.parked_once;
        parked_own = w.inv.parked_own;
        parked_proper = w.inv.parked_proper;
      };
      once = w.once;
      others_active = w.others_active;
      others_backoff = w.others_backoff;
      others_parked = w.others_parked;
      cycle = w.cycle;
    },
    there,
  )

  -- Add, in a state with the invariant, succeeds: the stage is active, with no attempts and the time
  -- of the call, it is in no other place, and every other stage stays where it is.
  pub add_activates :
      (q : PriorityQueue) (s : Stage) (now : ℕ)
      → Inv c order n q
      → Proper c order n s
      → Returns (λ (q', err). (err ≡ none) × AddedActive q s now q') (add c q s now)
  unfolding add new_queued_stage_info
  add_activates q s now v p =
      let info = new_queued_stage_info s now in
      let (a, ran_a, wa) = add_active_lem c order n q info v.active_valid in
      elim (Option-cases (lookup s.uid q.unschedulable)) [
        | inl missing ↦
            let (b, err, ran_b, wb, _) =
              delete_backoff_lem c order n (record q { active_q = a }) info v.backoff_valid in
            let w = added q s now a b q.unschedulable v p wa wb v.parked_once (λ u. ground arith) in
            rw (ran_a, missing, ran_b)
              (returns (
                refl,
                AddedActive-other q s now (record q { active_q = a; backoff_q = b }) _ refl w,
              ))
        | inr (old, there) ↦
            let (b, err, ran_b, wb, _) =
              delete_backoff_lem c order n
                (record q { active_q = a; unschedulable = erase s.uid q.unschedulable }) info
                v.backoff_valid in
            let w =
              added q s now a b (erase s.uid q.unschedulable) v p wa wb
                (keys-erase-Distinct s.uid q.unschedulable v.parked_once)
                (λ u. lookup-erase s.uid u q.unschedulable) in
            rw (ran_a, there, ran_b)
              (returns (
                refl,
                AddedActive-other q s now
                    (record q {
                      active_q = a;
                      backoff_q = b;
                      unschedulable = erase s.uid q.unschedulable;
                    })
                    _ refl w,
              ))
      ]
