-- ===== src/Scheduler/Queue/Return.antt =====
-- The stages that the scheduler gives back: AddUnschedulableIfNotPresent.
use flowline.Base.{
  ℕ, ◌≤◌, ◌≡◌, refl, true, false, if◌then◌else◌, Option, none, some, is_some, arith,
}
use flowline.Base.Int.{ℤ, lebℤ}
use flowline.Base.Keys.{text_key, same, store, lookup-store, keys-store-Distinct}
use flowline.Base.Run.{Returns, returns, Returns-if}
use flowline.Scheduler.Types.{StageInfo}
use flowline.Scheduler.Heap
use flowline.Scheduler.Heap.{HeapData, get_by_key, pop_head}
use flowline.Scheduler.Heap.Invariant.{IsOrder}
use flowline.Scheduler.Queue.{
  Config, PriorityQueue, QueueError, key_func, backoff_less, get_unschedulable,
}
use flowline.Scheduler.Queue.Calls.{park, add_unschedulable_if_not_present}
use flowline.Scheduler.Queue.Places.{
  Naming, Proper, Inv, places, backoff_at, parked_at, BackoffChange, add_backoff_lem,
}
use flowline.Scheduler.Queue.Take.{Placed}
use flowline.Scheduler.Nominator

module _ (c : Config) (order : IsOrder c.less_func) (n : Naming) where
  -- How the call may end. A stage that is in a place already is refused.
  pub data ReturnEnds (q : PriorityQueue) (info : StageInfo) (cycle : ℤ)
      : PriorityQueue → Option QueueError → Type 0 where
    refused :
        {e : QueueError}
        → 1 ≤ places c order n q info.stage.name
        → ReturnEnds q info cycle q (some e)
    backs_off :
        {q' : PriorityQueue}
        → places c order n q info.stage.name ≡ 0
        → lebℤ cycle q.move_request_cycle ≡ true
        → Placed c order n q info.stage q'
        → is_some (backoff_at c order n q' info.stage.name) ≡ true
        → ReturnEnds q info cycle q' none
    parks :
        {q' : PriorityQueue}
        → places c order n q info.stage.name ≡ 0
        → lebℤ cycle q.move_request_cycle ≡ false
        → Placed c order n q info.stage q'
        → is_some (parked_at c order n q' info.stage.name) ≡ true
        → ReturnEnds q info cycle q' none

  into_backoff :
      (q : PriorityQueue) (info : StageInfo) (b : HeapData StageInfo) (nom : Nominator.Nominator)
      → Inv c order n q
      → places c order n q info.stage.name ≡ 0
      → BackoffChange c order n
          (λ j. if same info.stage.name j then some info else backoff_at c order n q j)
          b
      → Placed c order n q info.stage (record q { backoff_q = b; nominator = nom })
  into_backoff q info b nom v absent w = record {
    inv = record {
      active_valid = v.active_valid;
      backoff_valid = w.valid;
      parked_once = v.parked_once;
      parked_own = v.parked_own;
      parked_proper = v.parked_proper;
    };
    once = ground (arith, w.contents info.stage.name);
    others_active = λ k apart. refl;
    others_backoff = λ k apart. ground (arith, w.contents k);
    others_parked = λ k apart. refl;
    cycle = refl;
  }

  into_unschedulable :
      (q : PriorityQueue) (info : StageInfo) (nom : Nominator.Nominator)
      → Inv c order n q
      → Proper c order n info.stage
      → places c order n q info.stage.name ≡ 0
      → Placed c order n q info.stage
          (record q { unschedulable = store info.stage.uid info q.unschedulable; nominator = nom })
  into_unschedulable q info nom v p absent = record {
    inv = record {
      active_valid = v.active_valid;
      backoff_valid = v.backoff_valid;
      parked_once = keys-store-Distinct info.stage.uid info q.unschedulable v.parked_once;
      parked_own = λ u i e.
          ground (arith, lookup-store info.stage.uid u info q.unschedulable, v.parked_own u i);
      parked_proper = λ u i e.
          ground (arith, lookup-store info.stage.uid u info q.unschedulable, v.parked_proper u i);
    };
    once =
        ground (arith, lookup-store info.stage.uid (n.uid_of info.stage.name) info q.unschedulable);
    others_active = λ k apart. refl;
    others_backoff = λ k apart. refl;
    others_parked = λ k apart. ground (
      arith,
      lookup-store info.stage.uid (n.uid_of k) info q.unschedulable,
      n.injective info.stage.name k,
    );
    cycle = refl;
  }

  park_ends :
      (q : PriorityQueue) (info : StageInfo) (t : ℕ) (cycle : ℤ)
      → Inv c order n q
      → Proper c order n info.stage
      → places c order n q info.stage.name ≡ 0
      → Returns
          (λ (q', err). ReturnEnds q info cycle q' err)
          (park c q (record info { timestamp = t }) cycle)
  unfolding park
  park_ends q info t cycle v p absent =
      let it = record info { timestamp = t } in
      let (b, ran, w) = add_backoff_lem c order n q it v.backoff_valid in
      Returns-if (lebℤ cycle q.move_request_cycle)
        (λ moved. rw ran (
          returns (
            backs_off absent moved (into_backoff q it b _ v absent w)
              (ground (arith, w.contents info.stage.name)))))
        (λ fresh. returns (
          parks absent fresh (into_unschedulable q it _ v p absent) (
            ground
              (arith, lookup-store info.stage.uid (n.uid_of info.stage.name) it q.unschedulable))))

  -- AddUnschedulableIfNotPresent, in a state with the invariant, never panics. It refuses a stage
  -- that is in one of the places, and then changes nothing. Any other stage goes into exactly one
  -- place: the backoff queue if a move was requested in its scheduling cycle or later, and else the
  -- unschedulable stages. Every other stage stays where it is.
  pub add_unschedulable_correct :
      (q : PriorityQueue) (info : StageInfo) (cycle : ℤ) (now : ℕ)
      → Inv c order n q
      → Proper c order n info.stage
      → Returns
          (λ (q', err). ReturnEnds q info cycle q' err)
          (add_unschedulable_if_not_present c q info cycle now)
  unfolding add_unschedulable_if_not_present Heap.get
  add_unschedulable_correct q info cycle now v p =
      Returns-if (is_some (get_unschedulable q info.stage))
        (λ there. returns (refused (ground arith)))
        λ no_parked.
          Returns-if (is_some (Heap.get c.less_func key_func q.active_q info).0)
            (λ there. returns (refused (ground arith)))
            λ no_active.
              Returns-if (is_some (Heap.get (backoff_less c) key_func q.backoff_q info).0)
                (λ there. returns (refused (ground arith)))
                λ no_backoff. park_ends q info now cycle v p (ground arith)
