-- ===== src/Scheduler/Queue/Flush.antt =====
-- flushBackoffQCompleted: the stages whose backoff is over become active.
use Prim.Native.String.{String}
use flowline.Base.{
  ℕ, zero, suc, ◌<◌, ◌≡◌, refl, Bool, true, false, if◌then◌else◌, length, get_elem?, get_elem?-some,
  get_elem?-lt, ltb, none, some, arith, Option-cases, inl, inr,
}
use flowline.Base.Keys.{text_key, same}
use flowline.Base.Run.{ok, Returns, returns, Returns-if, Returns-bind}
use flowline.Scheduler.Types.{StageInfo}
use flowline.Scheduler.Heap.{HeapData, get_by_key, peek}
use flowline.Scheduler.Heap.Invariant.{IsOrder}
use flowline.Scheduler.Heap.Valid.{Valid}
use flowline.Scheduler.Heap.Remove.{
  Removed, Removed-value, pop_first, peek_first, least_at, stored_item,
}
use flowline.Scheduler.Queue.{
  Config, PriorityQueue, key_func, backoff_less, get_backoff_time, broadcast_if,
}
use flowline.Scheduler.Queue.Backoff.{backoff_less-IsOrder}
use flowline.Scheduler.Queue.Moves.{flush_loop, flush_backoff}
use flowline.Scheduler.Queue.Places.{
  Naming, Inv, active_at, backoff_at, ActiveChange, add_active_lem,
}
use flowline.Scheduler.Queue.Stay.{Kept, Kept-refl, Kept-trans}

module _ (c : Config) (order : IsOrder c.less_func) (n : Naming) where
  peek_empty : (h : HeapData StageInfo) → get_elem? h.queue 0 ≡ none → peek h ≡ ok none
  unfolding peek
  peek_empty h e = ground (arith, get_elem?-some h.queue 0)

  none_stored :
      (h : HeapData StageInfo) (j : String) (y : StageInfo)
      → Valid (backoff_less c) key_func (backoff_less-IsOrder c) h
      → get_elem? h.queue 0 ≡ none
      → ¬ (get_by_key h j ≡ some y)
  none_stored h j y v e there =
      let (it, found, same_obj) =
        stored_item (backoff_less c) key_func (backoff_less-IsOrder c) h j y there in
      ground (
        arith,
        get_elem?-some h.queue 0,
        get_elem?-lt h.queue it.index j (v.inv.listed j it.index (ground arith)),
      )

  -- A state after backoffs that are over were flushed.
  pub record Flushed (q : PriorityQueue) (now : ℕ) (q' : PriorityQueue) : Type 0 where
    pub kept : Kept c order n q q'
    pub waiting :
        (k : String) (i : StageInfo)
        → backoff_at c order n q' k ≡ some i
        → now < get_backoff_time c i
    pub parked : q'.unschedulable ≡ q.unschedulable

  -- The first stage of the backoff queue, taken out of it and made active.
  activated_Kept :
      (q : PriorityQueue) (k : String) (i : StageInfo) (h a : HeapData StageInfo)
      → Inv c order n q
      → backoff_at c order n q k ≡ some i
      → Removed (backoff_less c) key_func (backoff_less-IsOrder c) q.backoff_q k i h
      → ActiveChange c order n
          (λ j. if same i.stage.name j then some i else active_at c order n q j)
          a
      → Kept c order n q (record q { backoff_q = h; active_q = a })
  activated_Kept q k i h a v at r w = record {
    inv = record {
      active_valid = w.valid;
      backoff_valid = r.valid;
      parked_once = v.parked_once;
      parked_own = v.parked_own;
      parked_proper = v.parked_proper;
    };
    all_kept = λ j one. ground (arith, w.contents j, r.contents j, v.backoff_valid.keyed k i at);
    cycle = refl;
  }

  flush_loop_lem :
      (fuel : ℕ) (q : PriorityQueue) (now : ℕ)
      → Inv c order n q
      → length q.backoff_q.queue < fuel
      → Returns (λ (q', some_active). Flushed q now q') (flush_loop c fuel q now)
  unfolding flush_loop backoff_less
  flush_loop_lem zero q now v enough = absurd (omega arith)
  flush_loop_lem (suc fuel) q now v enough = elim (Option-cases (get_elem? q.backoff_q.queue 0)) [
    | inl empty ↦ rw (peek_empty q.backoff_q empty) (
        returns (record {
          kept = Kept-refl c order n q v;
          waiting = λ j y there. absurd (none_stored q.backoff_q j y v.backoff_valid empty there);
          parked = refl;
        }))
    | inr (k, at) ↦
        let (i, shown, held) =
          peek_first (backoff_less c) key_func (backoff_less-IsOrder c) q.backoff_q k
            v.backoff_valid at in
        rw shown (
          Returns-if (ltb now (get_backoff_time c i))
            (λ waits. returns (record {
              kept = Kept-refl c order n q v;
              waiting = λ j y there. ground (
                arith,
                least_at (backoff_less c) key_func (backoff_less-IsOrder c) q.backoff_q k j i y
                    v.backoff_valid at held there,
              );
              parked = refl;
            }))
            (λ over.
              Returns-bind
                (pop_first (backoff_less c) key_func (backoff_less-IsOrder c) q.backoff_q k
                  v.backoff_valid at)
                λ (h, obj, err) (fine, (x, same_obj, r, least)).
                  let (a, ran, w) =
                    add_active_lem c order n (record q { backoff_q = h }) i v.active_valid in
                  let step =
                    activated_Kept q k i h a v held
                      (Removed-value (backoff_less c) key_func (backoff_less-IsOrder c) q.backoff_q
                        h k x i held r)
                      w in
                  rw (fine, ran)
                    (Returns-bind
                      (flush_loop_lem fuel (record q { backoff_q = h; active_q = a }) now step.inv
                        (omega (arith, r.size)))
                      λ (q', some_active) z. returns (record {
                        kept = Kept-trans c order n _ _ q' step z.kept;
                        waiting = z.waiting;
                        parked = z.parked;
                      }))))
  ]

  Flushed-broadcast :
      (q : PriorityQueue) (now : ℕ) (b : Bool) (q' : PriorityQueue)
      → Flushed q now q'
      → Flushed q now (broadcast_if b q')
  Flushed-broadcast q now true q' w = record {
    kept = record {
      inv = record {
        active_valid = w.kept.inv.active_valid;
        backoff_valid = w.kept.inv.backoff_valid;
        parked_once = w.kept.inv.parked_once;
        parked_own = w.kept.inv.parked_own;
        parked_proper = w.kept.inv.parked_proper;
      };
      all_kept = w.kept.all_kept;
      cycle = w.kept.cycle;
    };
    waiting = w.waiting;
    parked = w.parked;
  }
  Flushed-broadcast q now false q' w = w

  -- flushBackoffQCompleted, in a state with the invariant, returns. It loses no stage, duplicates
  -- none, leaves the unschedulable ones alone and keeps the invariant; afterwards only stages whose
  -- backoff lasts longer than now are in the backoff queue.
  pub flush_backoff_correct :
      (q : PriorityQueue) (now : ℕ)
      → Inv c order n q
      → Returns (Flushed q now) (flush_backoff c q now)
  unfolding flush_backoff
  flush_backoff_correct q now v =
      Returns-bind (flush_loop_lem (suc (length q.backoff_q.queue)) q now v (omega arith))
        λ (q', some_active) w. returns (Flushed-broadcast q now some_active q' w)
