-- ===== src/Scheduler/Queue/Stay.antt =====
-- The moves between the three places of a queue lose no stage and duplicate none.
use Prim.Native.String.{String}
use flowline.Base.{
  ℕ, ◌≤◌, ◌≡◌, ◌≢◌, sym, ◌∙◌, refl, true, if◌then◌else◌, not, ◌&&◌, ◌==◌, length, none, some, List,
  [], ◌∷◌, arith, All,
}
use flowline.Base.Keys.{text_key, same, lookup, erase, lookup-erase, keys-erase-Distinct}
use flowline.Base.Run.{ok, Returns, returns, Returns-if, Returns-bind}
use flowline.Scheduler.Types.{StageInfo, ClusterEvent}
use flowline.Scheduler.Heap.{HeapData}
use flowline.Scheduler.Heap.Invariant.{IsOrder}
use flowline.Scheduler.Queue.{
  Config, PriorityQueue, is_backing_off, stage_matches_event, drop_unschedulable, add_active,
  add_backoff,
}
use flowline.Scheduler.Queue.Moves.{move_stage, move_loop}
use flowline.Scheduler.Queue.Places.{
  Naming, places, Inv, parked_at, add_active_lem, add_backoff_lem,
}

module _ (c : Config) (order : IsOrder c.less_func) (n : Naming) where
  -- A state after moves of stages: each stage that was in one place is in one place.
  pub record Kept (q q' : PriorityQueue) : Type 0 where
    pub inv : Inv c order n q'
    pub all_kept :
        (k : String) → places c order n q k ≤ 1 → places c order n q' k ≡ places c order n q k
    pub cycle : q'.scheduling_cycle ≡ q.scheduling_cycle

  pub Kept-refl : (q : PriorityQueue) → Inv c order n q → Kept q q
  Kept-refl q v = record { inv = v; all_kept = λ k h. refl; cycle = refl }

  pub Kept-trans : (q r s : PriorityQueue) → Kept q r → Kept r s → Kept q s
  Kept-trans q r s f g = record {
    inv = g.inv;
    all_kept = λ k h. ground (arith, f.all_kept k h, g.all_kept k);
    cycle = g.cycle ∙ f.cycle;
  }

  -- The stage is unschedulable, and leaves the other unschedulable stages where they are.
  abbrev Left : PriorityQueue → StageInfo → PriorityQueue → Type 0
  Left q info q' =
      (u : String) → u ≢ info.stage.uid → lookup u q'.unschedulable ≡ lookup u q.unschedulable

  abbrev pub Parked : PriorityQueue → StageInfo → Type 0
  Parked q info = lookup info.stage.uid q.unschedulable ≡ some info

  dropped :
      (q : PriorityQueue) (info : StageInfo)
      → HeapData StageInfo
      → HeapData StageInfo
      → PriorityQueue
  dropped q info a b = record q {
    active_q = a;
    backoff_q = b;
    unschedulable = erase info.stage.uid q.unschedulable;
  }

  after_drop :
      (q : PriorityQueue) (info : StageInfo) (a b : HeapData StageInfo) (k : String)
      → Inv c order n q
      → Parked q info
      → parked_at c order n (dropped q info a b) k
        ≡ (if same info.stage.name k then none else parked_at c order n q k)
  unfolding dropped
  after_drop q info a b k v p =
      let proper = v.parked_proper info.stage.uid info p in
      ground (
        arith,
        lookup-erase info.stage.uid (n.uid_of k) q.unschedulable,
        n.injective info.stage.name k,
        proper,
      )

  dropped-Inv :
      (q : PriorityQueue) (info : StageInfo) (a b : HeapData StageInfo)
      → Inv c order n q
      → Inv c order n (record q { active_q = a; backoff_q = b })
      → Inv c order n (dropped q info a b)
  unfolding dropped
  dropped-Inv q info a b v w = record {
    active_valid = w.active_valid;
    backoff_valid = w.backoff_valid;
    parked_once = keys-erase-Distinct info.stage.uid q.unschedulable v.parked_once;
    parked_own =
        λ u i e. ground (arith, lookup-erase info.stage.uid u q.unschedulable, v.parked_own u i);
    parked_proper =
        λ u i e. ground (arith, lookup-erase info.stage.uid u q.unschedulable, v.parked_proper u i);
  }

  to_active :
      (q : PriorityQueue) (info : StageInfo)
      → Inv c order n q
      → Parked q info
      → (q' : PriorityQueue) × (add_active c q info
          ≡ ok (record q { active_q = q'.active_q }, none))
        × (drop_unschedulable (record q { active_q = q'.active_q }) info.stage ≡ q')
        × Kept q q'
        × Left q info q'
  unfolding dropped
  to_active q info v p =
      let (h, ran, w) = add_active_lem c order n q info v.active_valid in
      (
        dropped q info h q.backoff_q,
        ran,
        refl,
        record {
          inv = dropped-Inv q info h q.backoff_q v (record {
            active_valid = w.valid;
            backoff_valid = v.backoff_valid;
            parked_once = v.parked_once;
            parked_own = v.parked_own;
            parked_proper = v.parked_proper;
          });
          all_kept = λ k one. ground (
            arith,
            w.contents k,
            after_drop q info h q.backoff_q k v p,
            p,
            v.parked_proper info.stage.uid info p,
          );
          cycle = refl;
        },
        λ u apart. ground (arith, lookup-erase info.stage.uid u q.unschedulable),
      )

  to_backoff :
      (q : PriorityQueue) (info : StageInfo)
      → Inv c order n q
      → Parked q info
      → (q' : PriorityQueue) × (add_backoff c q info
          ≡ ok (record q { backoff_q = q'.backoff_q }, none))
        × (drop_unschedulable (record q { backoff_q = q'.backoff_q }) info.stage ≡ q')
        × Kept q q'
        × Left q info q'
  unfolding dropped
  to_backoff q info v p =
      let (h, ran, w) = add_backoff_lem c order n q info v.backoff_valid in
      (
        dropped q info q.active_q h,
        ran,
        refl,
        record {
          inv = dropped-Inv q info q.active_q h v (record {
            active_valid = v.active_valid;
            backoff_valid = w.valid;
            parked_once = v.parked_once;
            parked_own = v.parked_own;
            parked_proper = v.parked_proper;
          });
          all_kept = λ k one. ground (
            arith,
            w.contents k,
            after_drop q info q.active_q h k v p,
            p,
            v.parked_proper info.stage.uid info p,
          );
          cycle = refl;
        },
        λ u apart. ground (arith, lookup-erase info.stage.uid u q.unschedulable),
      )

  dropped-gone :
      (q q' : PriorityQueue) (info : StageInfo)
      → drop_unschedulable q info.stage ≡ q'
      → lookup info.stage.uid q'.unschedulable ≡ none
  dropped-gone q q' info e =
      ground (arith, lookup-erase info.stage.uid info.stage.uid q.unschedulable)

  -- What one move of a stage does.
  record OneMoved (q : PriorityQueue) (info : StageInfo) (e : ClusterEvent) (q' : PriorityQueue)
      : Type 0 where
    kept : Kept q q'
    left : Left q info q'
    gone : stage_matches_event c info e ≡ true → lookup info.stage.uid q'.unschedulable ≡ none

  move_stage_moves :
      (q : PriorityQueue) (info : StageInfo) (e : ClusterEvent) (now : ℕ)
      → Inv c order n q
      → Parked q info
      → Returns (λ (q', one). OneMoved q info e q') (move_stage c q info e now)
  unfolding move_stage
  move_stage_moves q info e now v p =
      let (a, ran_a, is_a, kept_a, left_a) = to_active q info v p in
      let (b, ran_b, is_b, kept_b, left_b) = to_backoff q info v p in
      Returns-if
        (not (length info.unschedulable_plugins == 0) && not (stage_matches_event c info e))
        (λ unmatched.
          returns
            (record { kept = Kept-refl q v; left = λ u apart. refl; gone = λ m. ground arith }))
        (λ _.
          Returns-if (is_backing_off c info now)
            (λ waits.
              rw (ran_b, is_b)
                (returns (record {
                  kept = kept_b;
                  left = left_b;
                  gone = λ _. dropped-gone _ b info is_b;
                })))
            (λ ready.
              rw (ran_a, is_a)
                (returns (record {
                  kept = kept_a;
                  left = left_a;
                  gone = λ _. dropped-gone _ a info is_a;
                }))))

  abbrev pub Apart : StageInfo → List StageInfo → Type 0
  Apart info = All (λ i. i.stage.uid ≢ info.stage.uid)

  -- All the stages are unschedulable, each once.
  abbrev pub AllParked : PriorityQueue → List StageInfo → Type 0
  AllParked q [] = Unit {0}
  AllParked q (info ∷ infos) = Parked q info × Apart info infos × AllParked q infos

  AllParked-Left :
      (q q' : PriorityQueue) (info : StageInfo) (infos : List StageInfo)
      → Left q info q'
      → Apart info infos
      → AllParked q infos
      → AllParked q' infos
  AllParked-Left q q' info [] l a p = tt
  AllParked-Left q q' info (i ∷ infos) l a p =
      (l i.stage.uid a.0 ∙ p.0, p.1, AllParked-Left q q' info infos l a.1 p.2)

  -- What the moves of several stages do.
  pub record AllMoved (q : PriorityQueue) (infos : List StageInfo) (e : ClusterEvent)
      (q' : PriorityQueue) : Type 0 where
    pub kept : Kept q q'
    pub left :
        (u : String)
        → All (λ i. u ≢ i.stage.uid) infos
        → lookup u q'.unschedulable ≡ lookup u q.unschedulable
    pub gone :
        All
          (λ i. stage_matches_event c i e ≡ true → lookup i.stage.uid q'.unschedulable ≡ none)
          infos

  Apart-sym :
      (info : StageInfo) (infos : List StageInfo)
      → Apart info infos
      → All (λ i. info.stage.uid ≢ i.stage.uid) infos
  Apart-sym info [] a = tt
  Apart-sym info (i ∷ infos) a = (λ e. a.0 (sym e), Apart-sym info infos a.1)

  pub move_loop_moves :
      (q : PriorityQueue) (infos : List StageInfo) (e : ClusterEvent) (now : ℕ)
      → Inv c order n q
      → AllParked q infos
      → Returns (λ (q', some_active). AllMoved q infos e q') (move_loop c q infos e now)
  unfolding move_loop
  move_loop_moves q [] e now v p =
      returns (record { kept = Kept-refl q v; left = λ u a. refl; gone = tt })
  move_loop_moves q (info ∷ infos) e now v (p, apart, ps) =
      Returns-bind (move_stage_moves q info e now v p) λ (q1, one) w.
        Returns-bind
          (move_loop_moves q1 infos e now w.kept.inv
            (AllParked-Left q q1 info infos w.left apart ps))
          λ (q2, rest) z. returns (record {
            kept = Kept-trans q q1 q2 w.kept z.kept;
            left = λ u a. z.left u a.1 ∙ w.left u a.0;
            gone = (λ m. z.left info.stage.uid (Apart-sym info infos apart) ∙ w.gone m, z.gone);
          })
