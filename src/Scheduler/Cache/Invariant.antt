-- ===== src/Scheduler/Cache/Invariant.antt =====
-- What the cache keeps: where each stage is listed, and the order of the workers.
use Prim.Native.String.{String}
use flowline.Base.{
  ℕ, ◌≡◌, refl, ap, sym, subst, ◌∙◌, Bool, true, false, not, ◌&&◌, ◌||◌, ◌==◌, All, length, List,
  [], ◌∷◌, ◌++◌, Option, none, some, is_some, if◌then◌else◌, arith, Bool-cases, inl, inr,
}
use flowline.Base.Keys.{
  text_key, same, same_eq, same_refl, has, has-append, has-remove, append_new-Distinct, remove,
  remove-Distinct, Distinct, lookup, store, erase, lookup-store, lookup-erase,
}
use flowline.Scheduler.Types.{Stage}
use flowline.Scheduler.Cache.{WorkerInfo, StageState, Cache}
use flowline.Scheduler.Cache.Pointers.{Links, Linked, new_item, move_item, remove_item}
use flowline.Scheduler.Cache.Pointers.Moves.{move_item-Linked, new_item-Linked, remove_item-Linked}
use flowline.Scheduler.Cache.Stages.{uids, Keyed, uids-append}

-- The stages that are listed with a worker.
abbrev pub stages_in : Option WorkerInfo → List Stage
stages_in none = []
stages_in (some n) = n.stages

abbrev pub stages_at : List (String × WorkerInfo) → String → List Stage
stages_at workers u = stages_in (lookup u workers)

abbrev pub on_worker : Option StageState → String → Bool
on_worker none u = false
on_worker (some state) u = same state.stage.worker_uid u

-- A stage is listed with a worker, once, exactly if the cache has a state for it with that worker.
pub record Placed (stages : String → List Stage) (states : List (String × StageState))
    : Type 0 where
  pub listed : (u key : String) → has (uids (stages u)) key ≡ on_worker (lookup key states) u
  pub once : (u : String) → Distinct (uids (stages u))
  pub keyed :
      (key : String) (state : StageState)
      → lookup key states ≡ some state
      → (state.stage.uid ≡ key) × (same key "" ≡ false)

-- The pointers hold a list of the workers that has each key of the map, once.
pub record Ordered (workers : List (String × WorkerInfo)) (links : Links) : Type 0 where
  pub order : List String
  pub linked : Linked links order
  pub in_order : (u : String) → has order u ≡ is_some (lookup u workers)
  pub order_once : Distinct order

-- An assumed stage whose binding is finished has a deadline, unless there is no expiration.
abbrev pub Dated : ℕ → List String → List (String × StageState) → Type 0
Dated ttl assumed states =
    (key : String) (state : StageState)
    → has assumed key ≡ true
    → lookup key states ≡ some state
    → state.binding_finished && not (ttl == 0) ≡ true
    → is_some state.deadline ≡ true

pub record Inv (c : Cache) : Type 0 where
  pub dated : Dated c.ttl c.assumed_stages c.stage_states
  pub placed : Placed (stages_at c.workers) c.stage_states
  pub ordered : Ordered c.workers c.links
  pub assumed_known :
      (key : String) → has c.assumed_stages key ≡ true → is_some (lookup key c.stage_states) ≡ true
  pub not_idle :
      (u : String) (n : WorkerInfo)
      → lookup u c.workers ≡ some n
      → is_some n.worker || not (length n.stages == 0) ≡ true

pub Ordered-head :
    (workers after : List (String × WorkerInfo)) (links : Links) (u : String)
    → Ordered workers links
    → is_some (lookup u workers) ≡ true
    → ((j : String)
        → is_some (lookup j after) ≡ (if same u j then true else is_some (lookup j workers)))
    → Ordered after (move_item links u)
unfolding has
Ordered-head workers after links u v there e = record {
  order = u ∷ remove v.order u;
  linked = move_item-Linked links u v.order v.linked (v.in_order u ∙ there) v.order_once;
  in_order = λ j. ground (arith, e j, v.in_order j, has-remove v.order u j);
  order_once =
      (ground (arith, has-remove v.order u u, same_refl u), remove-Distinct v.order u v.order_once);
}

pub Ordered-any :
    (workers after : List (String × WorkerInfo)) (links : Links) (u : String)
    → Ordered workers links
    → ((j : String)
        → is_some (lookup j after) ≡ (if same u j then true else is_some (lookup j workers)))
    → Ordered after (move_item (if is_some (lookup u workers) then links else new_item links u) u)
unfolding has
Ordered-any workers after links u v e = elim (Bool-cases (is_some (lookup u workers))) [
  | inl there ↦ rw there (Ordered-head workers after links u v there e)
  | inr new ↦ rw new (record {
    order = u ∷ v.order;
    linked = new_item-Linked links u v.order v.linked (v.in_order u ∙ new) v.order_once;
    in_order = λ j. ground (arith, e j, v.in_order j);
    order_once = (v.in_order u ∙ new, v.order_once);
  })
]

pub Ordered-drop :
    (workers after : List (String × WorkerInfo)) (links : Links) (u : String)
    → Ordered workers links
    → is_some (lookup u workers) ≡ true
    → ((j : String)
        → is_some (lookup j after) ≡ (if same u j then false else is_some (lookup j workers)))
    → Ordered after (remove_item links u)
Ordered-drop workers after links u v there e = record {
  order = remove v.order u;
  linked = remove_item-Linked links u v.order v.linked (v.in_order u ∙ there) v.order_once;
  in_order = λ j. ground (arith, e j, v.in_order j, has-remove v.order u j);
  order_once = remove-Distinct v.order u v.order_once;
}

pub Placed-add :
    (stages after : String → List Stage) (states : List (String × StageState)) (stage : Stage)
    (state : StageState)
    → Placed stages states
    → state.stage ≡ stage
    → same stage.uid "" ≡ false
    → lookup stage.uid states ≡ none
    → ((u : String)
        → after u
          ≡ (if same stage.worker_uid u then stages stage.worker_uid ++ stage ∷ [] else stages u))
    → Placed after (store stage.uid state states)
unfolding has
Placed-add stages after states stage state v it keyed new e = record {
  listed = λ u key.
      let stored = lookup-store stage.uid key state states in
      let w = stage.worker_uid in
      elim (Bool-cases (same stage.worker_uid u)) [
        | inl here ↦
            let added =
              ap (λ l. has l key) (ap uids (rw here at (e u)) ∙ uids-append (stages w) (stage ∷ []))
              ∙ has-append (uids (stages w)) (stage.uid ∷ []) key in
            ground (
              arith,
              added,
              stored,
              v.listed w key,
              ap (λ s. same s.worker_uid u) it,
              here,
              ap (λ x. on_worker (lookup key states) x) (same_eq w u here),
            )
        | inr away ↦
            let kept = ap (λ l. has (uids l) key) (rw away at (e u)) in
            elim (Bool-cases (same stage.uid key)) [
              | inl own ↦ ground (
                arith,
                kept,
                stored,
                own,
                v.listed u key,
                away,
                ap (λ s. same s.worker_uid u) it,
                ap (λ k. lookup k states) (same_eq stage.uid key own),
              )
              | inr other ↦ ground (arith, kept, stored, other, v.listed u key)
            ]
      ];
  once = λ u. elim (Bool-cases (same stage.worker_uid u)) [
    | inl here ↦
        let w = stage.worker_uid in
        let fresh : has (uids (stages w)) stage.uid ≡ false =
          ground (arith, v.listed w stage.uid, new) in
        subst Distinct (sym (ap uids (rw here at (e u)) ∙ uids-append (stages w) (stage ∷ [])))
          (append_new-Distinct (uids (stages w)) stage.uid (v.once w) fresh)
    | inr away ↦ subst (λ l. Distinct (uids l)) (sym (rw away at (e u))) (v.once u)
  ];
  keyed = λ key st there. elim (Bool-cases (same stage.uid key)) [
    | inl own ↦
        let found : state ≡ st = ground (arith, lookup-store stage.uid key state states, own) in
        rw (← found, it, ← same_eq stage.uid key own) (refl, keyed)
    | inr other ↦ v.keyed key st (ground (arith, lookup-store stage.uid key state states, other))
  ];
}

pub Placed-remove :
    (stages after : String → List Stage) (states : List (String × StageState)) (key worker : String)
    (state : StageState) (rest : List Stage)
    → Placed stages states
    → lookup key states ≡ some state
    → state.stage.worker_uid ≡ worker
    → ((k : String) → has (uids rest) k ≡ not (same key k) && has (uids (stages worker)) k)
    → Distinct (uids rest)
    → ((u : String) → after u ≡ (if same worker u then rest else stages u))
    → Placed after (erase key states)
unfolding has
Placed-remove stages after states key worker state rest v there on members rest_once e = record {
  listed = λ u k.
      let erased = lookup-erase key k states in
      elim (Bool-cases (same worker u)) [
        | inl here ↦
            let left = ap (λ l. has (uids l) k) (rw here at (e u)) in
            ground (
              arith,
              left,
              members k,
              erased,
              v.listed worker k,
              ap (λ x. on_worker (lookup k states) x) (same_eq worker u here),
            )
        | inr away ↦
            let kept = ap (λ l. has (uids l) k) (rw away at (e u)) in
            elim (Bool-cases (same key k)) [
              | inl own ↦ ground (
                arith,
                kept,
                erased,
                own,
                v.listed u k,
                away,
                there,
                ap (λ j. lookup j states) (same_eq key k own),
                ap (λ x. same x u) on,
              )
              | inr other ↦ ground (arith, kept, erased, other, v.listed u k)
            ]
      ];
  once = λ u. elim (Bool-cases (same worker u)) [
    | inl here ↦ subst (λ l. Distinct (uids l)) (sym (rw here at (e u))) rest_once
    | inr away ↦ subst (λ l. Distinct (uids l)) (sym (rw away at (e u))) (v.once u)
  ];
  keyed = λ k st found. v.keyed k st (ground (arith, lookup-erase key k states));
}

-- The stages of the workers are as before.
pub Placed-same :
    (stages after : String → List Stage) (states : List (String × StageState))
    → Placed stages states
    → ((u : String) → after u ≡ stages u)
    → Placed after states
Placed-same stages after states v e = record {
  listed = λ u key. ap (λ l. has (uids l) key) (e u) ∙ v.listed u key;
  once = λ u. subst (λ l. Distinct (uids l)) (sym (e u)) (v.once u);
  keyed = v.keyed;
}

-- The worker info of a key is stored.
pub stages_at-store :
    (u j : String) (n : WorkerInfo) (workers : List (String × WorkerInfo))
    → stages_at (store u n workers) j ≡ (if same u j then n.stages else stages_at workers j)
stages_at-store u j n workers = elim (Bool-cases (same u j)) [
  | inl here ↦ rw (stages_at, lookup-store u j n workers, here) refl
  | inr away ↦ rw (stages_at, lookup-store u j n workers, away) refl
]

pub all_Keyed :
    (l : List Stage) → ((k : String) → has (uids l) k ≡ true → same k "" ≡ false) → All Keyed l
unfolding has
all_Keyed [] h = tt
all_Keyed (s ∷ l) h = (h s.uid (ground arith), all_Keyed l (λ k e. h k (ground arith)))
