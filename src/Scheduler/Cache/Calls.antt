-- ===== src/Scheduler/Cache/Calls.antt =====
-- The moves to the head of the list of workers, and what addStage keeps.
use Prim.Native.String.{String}
use flowline.Base.{
  ℕ, ◌+◌, ◌≡◌, refl, ap, ◌∙◌, Bool, true, false, not, ◌||◌, ◌==◌, length, length-append, List, [],
  ◌∷◌, ◌++◌, none, some, is_some, if◌then◌else◌, arith, Option-cases, Bool-cases, inl, inr,
}
use flowline.Base.Keys.{
  text_key, same, same_refl, has-insert, lookup, store, erase, lookup-store, lookup-erase,
}
use flowline.Scheduler.Types.{Stage}
use flowline.Scheduler.Cache.{
  WorkerInfo, StageState, Cache, get_stage_key, move_to_head, info_of, add_stage,
}
use flowline.Scheduler.Cache.Pointers.{Links, move_item}
use flowline.Scheduler.Cache.{links_of}
use flowline.Scheduler.Cache.Invariant.{
  stages_at, Ordered, Inv, Ordered-head, Ordered-any, Placed-add, stages_at-store,
}

pub stages_of_info : (c : Cache) (u : String) → (info_of c u).0.stages ≡ stages_at c.workers u
unfolding info_of
stages_of_info c u = elim (Option-cases (lookup u c.workers)) [
  | inl missing ↦ rw (info_of, stages_at, missing) refl
  | inr (n, there) ↦ rw (info_of, stages_at, there) refl
]

pub stored :
    (u j : String) (n : WorkerInfo) (workers : List (String × WorkerInfo))
    → is_some (lookup j (store u n workers))
      ≡ (if same u j then true else is_some (lookup j workers))
stored u j n workers = ground (arith, lookup-store u j n workers)

pub key_of_stage :
    (s : Stage) (key : String)
    → get_stage_key s ≡ some key
    → (s.uid ≡ key) × (same s.uid "" ≡ false)
unfolding get_stage_key
key_of_stage s key e = elim (Bool-cases (same s.uid "")) [
  | inl empty ↦ absurd (ground (arith, empty))
  | inr full ↦ (ground (arith, full), full)
]

pub keyed_stage : (s : Stage) → same s.uid "" ≡ false → get_stage_key s ≡ some s.uid
unfolding get_stage_key
keyed_stage s keyed = rw (get_stage_key, keyed) refl

-- The worker info of a key is replaced, and comes to the head.
abbrev pub with_info : Cache → String → WorkerInfo → ℕ → Links → Cache
with_info c u n generation links = record c {
  workers = store u n c.workers;
  links = move_item links u;
  generation = generation;
}

pub moved_to_head :
    (c : Cache) (u : String) (n : WorkerInfo) (generation : ℕ) (links : Links)
    → move_to_head
        (record c { workers = store u n c.workers; links = links; generation = generation })
        u
      ≡ with_info c u n generation links
unfolding move_to_head
moved_to_head c u n generation links =
    let there : is_some (lookup u (store u n c.workers)) ≡ true =
      ground (arith, stored u u n c.workers, same_refl u) in
    rw (move_to_head, there) refl

pub with_info-Ordered :
    (c : Cache) (u : String) (n m : WorkerInfo)
    → Ordered c.workers c.links
    → lookup u c.workers ≡ some m
    → Ordered (store u n c.workers) (move_item c.links u)
with_info-Ordered c u n m v there =
    Ordered-head c.workers (store u n c.workers) c.links u v (ap is_some there)
      (λ j. stored u j n c.workers)

abbrev pub Busy : List (String × WorkerInfo) → Type 0
Busy workers =
    (u : String) (n : WorkerInfo)
    → lookup u workers ≡ some n
    → is_some n.worker || not (length n.stages == 0) ≡ true

pub store-Busy :
    (u : String) (n : WorkerInfo) (workers : List (String × WorkerInfo))
    → is_some n.worker || not (length n.stages == 0) ≡ true
    → Busy workers
    → Busy (store u n workers)
store-Busy u n workers new old j m e = elim (Bool-cases (same u j)) [
  | inl here ↦ let it : n ≡ m = ground (arith, lookup-store u j n workers, here) in rw (← it) new
  | inr away ↦ old j m (ground (arith, lookup-store u j n workers, away))
]

pub add_stage-Inv :
    (c : Cache) (stage : Stage) (assume : Bool)
    → Inv c
    → same stage.uid "" ≡ false
    → lookup stage.uid c.stage_states ≡ none
    → Inv (add_stage c stage assume).0
unfolding add_stage
add_stage-Inv c stage assume v keyed new =
    let w = stage.worker_uid in
    let n = (info_of c w).0 in
    let generation = (info_of c w).1 + 1 in
    let n' : WorkerInfo = record n { stages = n.stages ++ stage ∷ []; generation = generation } in
    let state : StageState = record { stage = stage; deadline = none; binding_finished = false } in
    let listed : (u : String)
        → stages_at (store w n' c.workers) u
          ≡ (if same w u then stages_at c.workers w ++ stage ∷ [] else stages_at c.workers u) =
      λ u.
        stages_at-store w u n' c.workers
        ∙ ap (λ l. if same w u then l ++ stage ∷ [] else stages_at c.workers u)
            (stages_of_info c w) in
    let one_more : not (length n'.stages == 0) ≡ true =
      ground (arith, length-append n.stages (stage ∷ [])) in
    rw (add_stage, keyed_stage stage keyed, moved_to_head c w n' generation (links_of c w))
      (record {
        dated = λ key st h e f. elim (Bool-cases (same stage.uid key)) [
          | inl own ↦
              let it : state ≡ st =
                ground (arith, lookup-store stage.uid key state c.stage_states, own) in
              absurd (ground (arith, ap (λ x. x.binding_finished) it))
          | inr other ↦
              v.dated key st (ground (arith, has-insert c.assumed_stages stage.uid key))
                (ground (arith, lookup-store stage.uid key state c.stage_states, other)) f
        ];
        placed =
            Placed-add (stages_at c.workers) (stages_at (store w n' c.workers)) c.stage_states stage
              state v.placed refl keyed new listed;
        ordered =
            Ordered-any c.workers (store w n' c.workers) c.links w v.ordered
              (λ j. stored w j n' c.workers);
        assumed_known = λ key h. ground (
          arith,
          v.assumed_known key,
          lookup-store stage.uid key state c.stage_states,
          has-insert c.assumed_stages stage.uid key,
        );
        not_idle = store-Busy w n' c.workers (ground (arith, one_more)) v.not_idle;
      })

pub erase-Busy :
    (u : String) (workers : List (String × WorkerInfo)) → Busy workers → Busy (erase u workers)
erase-Busy u workers old j m e = old j m (ground (arith, lookup-erase u j workers))
