-- ===== src/Scheduler/Queue/Moved.antt =====
-- The bulk moves: MoveAllToActiveOrBackoffQueue, AssignedStageAdded, flushUnschedulableStagesLeftover.
use Prim.Native.String.{String}
use flowline.Base.{
  by_test, ℕ, ◌+◌, ◌-◌, ◌≡◌, ◌≢◌, sym, ap, ◌∙◌, refl, Bool, true, false, if◌then◌else◌, length, ltb,
  Option, none, some, List, [], ◌∷◌, arith, All,
}
use flowline.Base.Int.{ℤ, pos}
use flowline.Base.Keys.{text_key, ◌≟◌, has, lookup, has-keys, keys, Distinct}
use flowline.Base.Run.{Returns, returns, Returns-if, Returns-bind, Returns-weaken}
use flowline.Scheduler.Types.{Stage, StageInfo, ClusterEvent, is_wild_card}
use flowline.Scheduler.Heap.Invariant.{IsOrder}
use flowline.Scheduler.Queue.{Config, PriorityQueue, stage_matches_event, broadcast_if}
use flowline.Scheduler.Queue.Moves.{
  move_stages, select, move_all, flush_unschedulable, unschedulable_timeout,
}
use flowline.Scheduler.Queue.Places.{Naming, Inv}
use flowline.Scheduler.Queue.Stay.{Kept, AllParked, AllMoved, Kept-refl, move_loop_moves}

abbrev Owned : List (String × StageInfo) → Type 0
Owned m = (u : String) (i : StageInfo) → lookup u m ≡ some i → i.stage.uid ≡ u

Owned-tail :
    (k : String) (info : StageInfo) (m : List (String × StageInfo))
    → Distinct (k ∷ keys m)
    → Owned ((k, info) ∷ m)
    → Owned m
unfolding lookup
Owned-tail k info m d own u i e = ground (arith, own u i, has-keys k m)

-- Whether an unschedulable stage is chosen.
abbrev pub Chosen : (StageInfo → Bool) → List (String × StageInfo) → String → StageInfo → Type 0
Chosen p m u i = (lookup u m ≡ some i) × (p i ≡ true)

module _ (c : Config) (order : IsOrder c.less_func) (n : Naming) where
  Kept-stamp :
      (q q1 : PriorityQueue) (r : ℤ) (b : ℕ)
      → Kept c order n q q1
      → Kept c order n q (record q1 { move_request_cycle = r; broadcasts = b })
  Kept-stamp q q1 r b w = record {
    inv = record {
      active_valid = w.inv.active_valid;
      backoff_valid = w.inv.backoff_valid;
      parked_once = w.inv.parked_once;
      parked_own = w.inv.parked_own;
      parked_proper = w.inv.parked_proper;
    };
    all_kept = w.all_kept;
    cycle = w.cycle;
  }

  AllMoved-stamp :
      (q : PriorityQueue) (infos : List StageInfo) (e : ClusterEvent) (q1 : PriorityQueue)
      (b : Bool) (r : ℤ)
      → AllMoved c order n q infos e q1
      → AllMoved c order n q infos e (broadcast_if b (record q1 { move_request_cycle = r }))
        × ((broadcast_if b (record q1 { move_request_cycle = r })).move_request_cycle ≡ r)
  AllMoved-stamp q infos e q1 true r w = (
    record { kept = Kept-stamp q q1 r (q1.broadcasts + 1) w.kept; left = w.left; gone = w.gone },
    refl,
  )
  AllMoved-stamp q infos e q1 false r w =
      (record { kept = Kept-stamp q q1 r q1.broadcasts w.kept; left = w.left; gone = w.gone }, refl)

  move_stages_moves :
      (q : PriorityQueue) (infos : List StageInfo) (e : ClusterEvent) (now : ℕ)
      → Inv c order n q
      → AllParked c order n q infos
      → Returns
          (λ q'. AllMoved c order n q infos e q' × (q'.move_request_cycle ≡ pos q.scheduling_cycle))
          (move_stages c q infos e now)
  unfolding move_stages
  move_stages_moves q infos e now v p =
      Returns-bind (move_loop_moves c order n q infos e now v p) λ (q1, some_active) w.
        let (moved, cycle) = AllMoved-stamp q infos e q1 some_active (pos q1.scheduling_cycle) w in
        returns (moved, cycle ∙ ap pos w.kept.cycle)

  select-Apart :
      (p : StageInfo → Bool) (k : String) (m : List (String × StageInfo))
      → Distinct (k ∷ keys m)
      → Owned m
      → All (λ i. i.stage.uid ≢ k) (select c p m)
  unfolding select has lookup
  select-Apart p k [] d own = tt
  select-Apart p k ((j, i) ∷ m) d own =
      let rest = select-Apart p k m (ground arith, d.1.1) (Owned-tail j i m d.1 own) in
      let apart : i.stage.uid ≢ k = λ e. ground (arith, own j i) in
      by_test (p i) (λ b. All (λ i. i.stage.uid ≢ k) (if b then i ∷ select c p m else select c p m))
        (apart, rest) rest

  -- The chosen unschedulable stages stand each once in the list.
  select-AllParked :
      (p : StageInfo → Bool) (q : PriorityQueue) (m : List (String × StageInfo))
      → Distinct (keys m)
      → Owned m
      → ((u : String) (i : StageInfo) → lookup u m ≡ some i → lookup u q.unschedulable ≡ some i)
      → AllParked c order n q (select c p m)
  unfolding select lookup
  select-AllParked p q [] d own within = tt
  select-AllParked p q ((j, i) ∷ m) d own within =
      let rest =
        select-AllParked p q m d.1 (Owned-tail j i m d own)
          (λ u x e. ground (arith, within u x, has-keys j m)) in
      let its : i.stage.uid ≡ j = own j i (ground arith) in
      let parked : lookup i.stage.uid q.unschedulable ≡ some i = ground (arith, within j i) in
      let apart : All (λ x. x.stage.uid ≢ i.stage.uid) (select c p m) =
        rw its (select-Apart p j m d (Owned-tail j i m d own)) in
      by_test (p i) (λ b. AllParked c order n q (if b then i ∷ select c p m else select c p m))
        (parked, apart, rest) rest

  All-if :
      (b : Bool) (x : StageInfo) (l : List StageInfo) (P : StageInfo → Type 0)
      → All P (if b then x ∷ l else l)
      → (b ≡ true → P x) × All P l
  All-if true x l P a = (λ t. a.0, a.1)
  All-if false x l P a = (λ t. absurd cc, a)

  -- What holds of each chosen stage holds of the one under a UID.
  All-select :
      (p : StageInfo → Bool) (m : List (String × StageInfo)) (P : StageInfo → Type 0) (u : String)
      (i : StageInfo)
      → All P (select c p m)
      → Chosen p m u i
      → P i
  unfolding select lookup
  All-select p [] P u i a (e, t) = absurd cc
  All-select p ((j, x) ∷ m) P u i a (e, t) =
      let (first, rest) = All-if (p x) x (select c p m) P a in
      elim (j ≟ u) [
        | yes h ↦ (let it : x ≡ i = ground arith in rw (sym it) (first (rw it t)))
        | no h ↦ All-select p m P u i rest (ground arith, t)
      ]

  abbrev passes : Option (Stage → Bool) → StageInfo → Bool
  passes none info = true
  passes (some check) info = check info.stage

  -- The state after a bulk move of the chosen stages.
  pub record BulkMoved (q : PriorityQueue) (p : StageInfo → Bool) (e : ClusterEvent)
      (q' : PriorityQueue) : Type 0 where
    pub kept : Kept c order n q q'
    pub chosen_gone :
        (u : String) (i : StageInfo)
        → Chosen p q.unschedulable u i
        → stage_matches_event c i e ≡ true
        → lookup u q'.unschedulable ≡ none
    pub stamped : q'.move_request_cycle ≡ pos q.scheduling_cycle

  select_moves :
      (q : PriorityQueue) (p : StageInfo → Bool) (e : ClusterEvent) (now : ℕ)
      → Inv c order n q
      → Returns (BulkMoved q p e) (move_stages c q (select c p q.unschedulable) e now)
  select_moves q p e now v =
      let parked = select-AllParked p q q.unschedulable v.parked_once v.parked_own (λ u i h. h) in
      Returns-weaken (move_stages_moves q (select c p q.unschedulable) e now v parked)
        λ q' (w, cycle). record {
          kept = w.kept;
          chosen_gone = λ u i (found, t) matches.
              ap (λ k. lookup k q'.unschedulable) (sym (v.parked_own u i found))
              ∙ All-select p q.unschedulable
                  (λ i.
                    stage_matches_event c i e ≡ true → lookup i.stage.uid q'.unschedulable ≡ none)
                  u i w.gone (found, t) matches;
          stamped = cycle;
        }

  -- MoveAllToActiveOrBackoffQueue, in a state with the invariant, returns. It loses no stage,
  -- duplicates none and keeps the invariant; an unschedulable stage that passes the check and that
  -- the event matches is not unschedulable afterwards; and the cycle of the move request is the
  -- current scheduling cycle.
  pub move_all_correct :
      (q : PriorityQueue) (e : ClusterEvent) (pre_check : Option (Stage → Bool)) (now : ℕ)
      → Inv c order n q
      → Returns (BulkMoved q (passes pre_check) e) (move_all c q e pre_check now)
  unfolding move_all
  move_all_correct q e none now v = select_moves q (passes none) e now v
  move_all_correct q e (some check) now v = select_moves q (passes (some check)) e now v

  abbrev too_long : PriorityQueue → ℕ → StageInfo → Bool
  too_long q now info = ltb c.max_in_unschedulable (now - info.timestamp)

  all_match : (i : StageInfo) → stage_matches_event c i unschedulable_timeout ≡ true
  unfolding stage_matches_event is_wild_card
  all_match i = ground arith

  All-empty : (l : List StageInfo) (P : StageInfo → Type 0) → ltb 0 (length l) ≡ false → All P l
  All-empty [] P e = tt
  All-empty (x ∷ l) P e = absurd (ground arith)

  -- flushUnschedulableStagesLeftover, in a state with the invariant, returns; it loses no stage,
  -- duplicates none and keeps the invariant, and no stage that was unschedulable for longer than the
  -- limit is so afterwards.
  pub flush_unschedulable_correct :
      (q : PriorityQueue) (now : ℕ)
      → Inv c order n q
      → Returns
          (λ q'.
            Kept c order n q q'
            × ((u : String) (i : StageInfo)
                → Chosen (too_long q now) q.unschedulable u i
                → lookup u q'.unschedulable ≡ none))
          (flush_unschedulable c q now)
  unfolding flush_unschedulable
  flush_unschedulable_correct q now v =
      Returns-if (ltb 0 (length (select c (too_long q now) q.unschedulable)))
        (λ some_left.
          Returns-weaken (select_moves q (too_long q now) unschedulable_timeout now v)
            λ q' w. (w.kept, λ u i h. w.chosen_gone u i h (all_match i)))
        (λ none_left. returns (
          Kept-refl c order n q v,
          λ u i h.
              All-select (too_long q now) q.unschedulable (λ _. lookup u q.unschedulable ≡ none) u i
                (All-empty (select c (too_long q now) q.unschedulable)
                  (λ _. lookup u q.unschedulable ≡ none) none_left)
                h,
        ))
