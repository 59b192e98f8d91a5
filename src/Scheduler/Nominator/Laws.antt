-- ===== src/Scheduler/Nominator/Laws.antt =====
-- The lists of nominated stages and the map from stages to workers agree.
use Prim.Native.String.{String}
use flowline.Base.{
  ◌≡◌, refl, true, false, ◌&&◌, List, [], ◌∷◌, ◌++◌, Option, none, some, if◌then◌else◌, arith,
  by_test, Option-cases, inl, inr,
}
use flowline.Base.Keys.{text_key, same, lookup, erase, lookup-store, lookup-erase}
use flowline.Scheduler.Types.{Stage}
use flowline.Scheduler.Nominator.{
  mode_override, Nominator, NominatingInfo, new_nominator, nominated_for, holds_uid, drop_uid,
  put_list, delete, nominate, may_nominate, nominated_worker, add, update_nominated_stage,
}

-- Each stage in the list is there once.
abbrev pub Once : List Stage → Type 0
Once [] = Unit {0}
Once (s ∷ l) = (holds_uid l s.uid ≡ false) × Once l

-- A stage is nominated for a worker, by the map, exactly if it is in the list of the worker.
pub record Agree (n : Nominator) : Type 0 where
  pub once : (w : String) → Once (nominated_for n w)
  pub listed :
      (w u : String)
      → lookup u n.nominated_stage_to_worker ≡ some w
      → holds_uid (nominated_for n w) u ≡ true
  pub located :
      (w u : String)
      → holds_uid (nominated_for n w) u ≡ true
      → lookup u n.nominated_stage_to_worker ≡ some w

holds_uid-append :
    (l : List Stage) (s : Stage) (u : String)
    → holds_uid (l ++ s ∷ []) u ≡ (if same s.uid u then true else holds_uid l u)
unfolding holds_uid
holds_uid-append [] s u = refl
holds_uid-append (x ∷ l) s u = ground (arith, holds_uid-append l s u)

append-Once : (l : List Stage) (s : Stage) → Once l → holds_uid l s.uid ≡ false → Once (l ++ s ∷ [])
unfolding holds_uid
append-Once [] s o h = (refl, tt)
append-Once (x ∷ l) s o h = ground (arith, holds_uid-append l s x.uid, append-Once l s o.1)

holds_uid-drop_uid :
    (l : List Stage) (x u : String)
    → Once l
    → holds_uid (drop_uid l x) u ≡ (if same x u then false else holds_uid l u)
unfolding holds_uid drop_uid
holds_uid-drop_uid [] x u o = ground arith
holds_uid-drop_uid (s ∷ l) x u o = ground (arith, holds_uid-drop_uid l x u o.1)

drop_uid-Once : (l : List Stage) (x : String) → Once l → Once (drop_uid l x)
unfolding drop_uid
drop_uid-Once [] x o = tt
drop_uid-Once (s ∷ l) x o = ground (arith, holds_uid-drop_uid l x s.uid o.1, drop_uid-Once l x o.1)

-- `npm.nominatedStages[worker]` after the list of a worker is stored, or deleted when it is empty.
for-put_list :
    (n : Nominator) (worker w : String) (l : List Stage) (m : List (String × String))
    → nominated_for
        (record {
          nominated_stages = put_list n.nominated_stages worker l;
          nominated_stage_to_worker = m;
        })
        w
      ≡ (if same worker w then l else nominated_for n w)
unfolding nominated_for put_list
for-put_list n worker w [] m = ground (arith, lookup-erase worker w n.nominated_stages)
for-put_list n worker w (s ∷ l) m = ground (arith, lookup-store worker w (s ∷ l) n.nominated_stages)

-- What delete leaves.
record Cleared (n : Nominator) (x : String) (n' : Nominator) : Type 0 where
  agree : Agree n'
  worker_of :
      (u : String)
      → lookup u n'.nominated_stage_to_worker
        ≡ (if same x u then none else lookup u n.nominated_stage_to_worker)

delete_clears : (n : Nominator) (p : Stage) → Agree n → Cleared n p.uid (delete n p)
unfolding delete
delete_clears n p a = elim (Option-cases (lookup p.uid n.nominated_stage_to_worker)) [
  | inl missing ↦ rw (missing, delete) (record { agree = a; worker_of = λ u. ground arith })
  | inr (worker, there) ↦
      let l = nominated_for n worker in
      let m = erase p.uid n.nominated_stage_to_worker in
      let listed = a.listed worker p.uid there in
      rw (there, listed, delete)
        (record {
          agree = record {
            once = λ w. ground (
              arith,
              for-put_list n worker w (drop_uid l p.uid) m,
              drop_uid-Once l p.uid (a.once worker),
              a.once w,
            );
            listed = λ w u e. ground (
              arith,
              for-put_list n worker w (drop_uid l p.uid) m,
              holds_uid-drop_uid l p.uid u (a.once worker),
              lookup-erase p.uid u n.nominated_stage_to_worker,
              a.listed w u,
            );
            located = λ w u e. ground (
              arith,
              for-put_list n worker w (drop_uid l p.uid) m,
              holds_uid-drop_uid l p.uid u (a.once worker),
              lookup-erase p.uid u n.nominated_stage_to_worker,
              a.located w u,
            );
          };
          worker_of = λ u. lookup-erase p.uid u n.nominated_stage_to_worker;
        })
]

-- What the last part of add does to a stage that is not nominated.
record Named (n : Nominator) (x : String) (worker : String) (n' : Nominator) : Type 0 where
  agree : Agree n'
  worker_of :
      (u : String)
      → lookup u n'.nominated_stage_to_worker
        ≡ (if same x u then some worker else lookup u n.nominated_stage_to_worker)

for-nominate :
    (n : Nominator) (s : Stage) (worker w : String)
    → holds_uid (nominated_for n worker) s.uid ≡ false
    → nominated_for (nominate n s worker) w
      ≡ (if same worker w then nominated_for n worker ++ s ∷ [] else nominated_for n w)
unfolding nominate nominated_for
for-nominate n s worker w h =
    ground (arith, lookup-store worker w (nominated_for n worker ++ s ∷ []) n.nominated_stages)

worker-nominate :
    (n : Nominator) (s : Stage) (worker u : String)
    → lookup u (nominate n s worker).nominated_stage_to_worker
      ≡ (if same s.uid u then some worker else lookup u n.nominated_stage_to_worker)
unfolding nominate
worker-nominate n s worker u = lookup-store s.uid u worker n.nominated_stage_to_worker

nominate_names :
    (n : Nominator) (s : Stage) (worker : String)
    → Agree n
    → lookup s.uid n.nominated_stage_to_worker ≡ none
    → Named n s.uid worker (nominate n s worker)
nominate_names n s worker a free =
    let l = nominated_for n worker in
    let absent : holds_uid l s.uid ≡ false = ground (arith, a.located worker s.uid) in
    record {
      agree = record {
        once = λ w. ground (
          arith,
          for-nominate n s worker w absent,
          append-Once l s (a.once worker) absent,
          a.once w,
        );
        listed = λ w u e. ground (
          arith,
          for-nominate n s worker w absent,
          worker-nominate n s worker u,
          holds_uid-append l s u,
          a.listed w u,
        );
        located = λ w u e. ground (
          arith,
          for-nominate n s worker w absent,
          worker-nominate n s worker u,
          holds_uid-append l s u,
          a.located w u,
        );
      };
      worker_of = worker-nominate n s worker;
    }

abbrev or_none : Option String → String
or_none none = ""
or_none (some worker) = worker

module _ (lister : Option (String → Option Stage)) where
  -- The lists and the map after a nomination: only that of one stage is changed.
  pub record Nominated (n : Nominator) (x : String) (worker : Option String) (n' : Nominator)
      : Type 0 where
    pub agree : Agree n'
    pub worker_of :
        (u : String)
        → lookup u n'.nominated_stage_to_worker
          ≡ (if same x u then worker else lookup u n.nominated_stage_to_worker)

  -- Where the lists of nominated stages and the map from stages to workers agree, they do after add;
  -- the stage is nominated for the worker that is asked for, and for no other, if the lister knows it
  -- without a worker or there is no lister, and for none otherwise; no other nomination changes.
  pub add_nominates :
      (n : Nominator) (s : Stage) (info : Option NominatingInfo)
      → Agree n
      → Nominated n s.uid
          (if may_nominate lister s.uid then some (nominated_worker info) else none)
          (add lister n s info)
  unfolding add
  add_nominates n s info a =
      let cleared = delete_clears n s a in
      let named =
        nominate_names (delete n s) s (nominated_worker info) cleared.agree
          (ground (arith, cleared.worker_of s.uid)) in
      by_test (may_nominate lister s.uid)
        (λ b.
          Nominated n s.uid (if b then some (nominated_worker info) else none)
            (if b then nominate (delete n s) s (nominated_worker info) else delete n s))
        (record {
          agree = named.agree;
          worker_of = λ u. ground (arith, named.worker_of u, cleared.worker_of u);
        })
        (record { agree = cleared.agree; worker_of = λ u. ground (arith, cleared.worker_of u) })

  -- UpdateNominatedStage of a stage that keeps its UID and has no worker, where lists and map agree,
  -- keeps its nomination and that of every other stage; a stage that was not nominated is nominated
  -- without a worker. If the lister refuses the stage, its nomination ends.
  update_keeps :
      (n : Nominator) (old new : Stage)
      → Agree n
      → old.uid ≡ new.uid
      → old.worker_uid ≡ ""
      → new.worker_uid ≡ ""
      → Nominated n new.uid
          (if may_nominate lister new.uid
            then some (or_none (lookup old.uid n.nominated_stage_to_worker))
            else none)
          (update_nominated_stage lister n old new)
  unfolding update_nominated_stage
  update_keeps n old new a same_uid free_old free_new =
      let cleared = delete_clears n old a in
      let both : same old.worker_uid "" && same new.worker_uid "" ≡ true = ground arith in
      elim (Option-cases (lookup old.uid n.nominated_stage_to_worker)) [
        | inl missing ↦
            let w = add_nominates (delete n old) new none cleared.agree in
            rw (missing, both, update_nominated_stage)
              (record {
                agree = w.agree;
                worker_of = λ u. ground (arith, w.worker_of u, cleared.worker_of u);
              })
        | inr (worker, there) ↦
            let w =
              add_nominates (delete n old) new
                (some (record { nominated_worker_name = worker; nominating_mode = mode_override }))
                cleared.agree in
            rw (there, both, update_nominated_stage)
              (record {
                agree = w.agree;
                worker_of = λ u. ground (arith, w.worker_of u, cleared.worker_of u);
              })
      ]

pub new-Agree : Agree new_nominator
unfolding new_nominator nominated_for holds_uid lookup
new-Agree = record {
  once = λ w. tt;
  listed = λ w u e. ground arith;
  located = λ w u e. ground arith;
}
