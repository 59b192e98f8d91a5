-- ===== src/Fifo/Synced.antt =====
-- HasSynced: when the objects of the first Replace were taken.
use Prim.Native.String.{String}
use flowline.Base.{
  ℕ, zero, suc, ◌-◌, ◌≤◌, ◌<◌, ◌≡◌, refl, Bool, true, false, length, length-append, ap, All, List,
  [], ◌∷◌, ◌++◌, Option, none, some, arith, Option-cases, inl, inr,
}
use flowline.Base.Keys.{text_key, keys, lookup, erase}
use flowline.Fifo.{
  Fifo, Processed, fine, failed, requeue, process_item, pop_loop, pop, collect, replace,
  replace_items, has_synced, add, add_if_not_present, delete, add_by_id, add_if_not_present_by_id,
  delete_by_id, resync, resync_loop, close, new_fifo,
}
use flowline.Fifo.Invariant.{
  Call, call_add, call_add_if_not_present, call_delete, call_replace, call_pop, call_resync,
  call_close, run_call, run_calls,
}

-- Something was put in, and no more objects are counted than ids are in the queue.
abbrev pub Counted {ℓ} : {V : Type ℓ} → Fifo V → Type 0
Counted f = (f.populated ≡ true) × (f.initial_population_count ≤ length f.queue)

abbrev is_replace {ℓ} : {V : Type ℓ} → Call V → Bool
is_replace (call_add obj) = false
is_replace (call_add_if_not_present obj) = false
is_replace (call_delete obj) = false
is_replace (call_replace l) = true
is_replace call_pop = false
is_replace call_resync = false
is_replace call_close = false

abbrev pub NoReplace {ℓ} : {V : Type ℓ} → List (Call V) → Type 0
NoReplace = All (λ call. is_replace call ≡ false)

module _ {ℓ} {V : Type ℓ} where
  add_by_id-Counted :
      (f : Fifo V) (id : String) (obj : V) → Counted f → Counted (add_by_id f id obj)
  unfolding add_by_id
  add_by_id-Counted f id obj h = ground (arith, length-append f.queue (id ∷ []))

  add_if_not_present_by_id-Counted :
      (f : Fifo V) (id : String) (obj : V) → Counted f → Counted (add_if_not_present_by_id f id obj)
  unfolding add_if_not_present_by_id
  add_if_not_present_by_id-Counted f id obj h = ground (arith, length-append f.queue (id ∷ []))

  resync_grows :
      (in_queue : List String) (items : List (String × V)) (queue : List String)
      → length queue ≤ length (resync_loop in_queue items queue)
  unfolding resync_loop
  resync_grows in_queue [] queue = omega arith
  resync_grows in_queue ((id, obj) ∷ items) queue = ground (
    arith,
    resync_grows in_queue items queue,
    resync_grows in_queue items (queue ++ id ∷ []),
    length-append queue (id ∷ []),
  )

  process_item-Counted {κ} :
      {E : Type κ} (p : Processed E) (f : Fifo V) (id : String) (item : V)
      → Counted f
      → Counted (process_item p f id item).0
  unfolding process_item
  process_item-Counted fine f id item h = h
  process_item-Counted (failed e) f id item h = h
  process_item-Counted (requeue e) f id item h = add_if_not_present_by_id-Counted f id item h

  module _ {κ} {E : Type κ} (process : V → Processed E) where
    pop_loop-Counted :
        (f : Fifo V) (queue : List String)
        → f.populated ≡ true
        → f.initial_population_count ≤ length queue
        → Counted (pop_loop process f queue).0
    unfolding pop_loop
    pop_loop-Counted f [] p h = (p, h)
    pop_loop-Counted f (id ∷ queue) p h =
        let taken = record f {
          queue = queue;
          initial_population_count = f.initial_population_count - 1;
        } in
        elim (Option-cases (lookup id f.items)) [
          | inl missing ↦ rw (missing, pop_loop) (pop_loop-Counted taken queue p (omega arith))
          | inr (item, there) ↦
              rw (there, pop_loop)
                (process_item-Counted (process item) (record taken { items = erase id f.items }) id
                  item (p, omega arith))
        ]

    abbrev pub pop_times : ℕ → Fifo V → Fifo V
    pop_times zero f = f
    pop_times (suc n) f = pop_times n (pop process f).0

    pop_times-unsynced :
        (n : ℕ) (g : Fifo V)
        → g.queue ≡ []
        → g.populated ≡ true
        → 0 < g.initial_population_count
        → has_synced (pop_times n g) ≡ false
    unfolding has_synced pop pop_loop
    pop_times-unsynced zero g e p h = ground arith
    pop_times-unsynced (suc n) g e p h =
        rw e (pop_times-unsynced n (record g { queue = [] }) refl p h)

    module _ (key_func : V → Option String) where
      keyed :
          (o : Option String) (f : Fifo V) (g : String → Fifo V)
          → Counted f
          → ((id : String) → Counted (g id))
          → Counted
              ((elim o as (λ _. Fifo V × Bool) [ none ↦ (f, true) | some id ↦ (g id, false) ]).0)
      keyed none f g v w = v
      keyed (some id) f g v w = w id

      run_call-Counted :
          (f : Fifo V) (call : Call V)
          → is_replace call ≡ false
          → Counted f
          → Counted (run_call key_func process f call)
      unfolding run_call add add_if_not_present delete delete_by_id close resync pop
      run_call-Counted f (call_add obj) e h =
          keyed (key_func obj) f (λ id. add_by_id f id obj) h (λ id. add_by_id-Counted f id obj h)
      run_call-Counted f (call_add_if_not_present obj) e h =
          keyed (key_func obj) f (λ id. add_if_not_present_by_id f id obj) h
            (λ id. add_if_not_present_by_id-Counted f id obj h)
      run_call-Counted f (call_delete obj) e h =
          keyed (key_func obj) f (λ id. delete_by_id f id) h (λ id. (refl, h.1))
      run_call-Counted f (call_replace l) e h = absurd cc
      run_call-Counted f call_pop e h = pop_loop-Counted f f.queue h.0 h.1
      run_call-Counted f call_resync e h =
          (h.0, omega (arith, resync_grows f.queue f.items f.queue, h.1))
      run_call-Counted f call_close e h = h

      run_calls-Counted :
          (f : Fifo V) (calls : List (Call V))
          → NoReplace calls
          → Counted f
          → Counted (run_calls key_func process f calls)
      unfolding run_calls
      run_calls-Counted f [] e h = h
      run_calls-Counted f (call ∷ calls) e h =
          run_calls-Counted (run_call key_func process f call) calls e.1
            (run_call-Counted f call e.0 h)

      length-keys : (m : List (String × V)) → length (keys m) ≡ length m
      length-keys [] = refl
      length-keys (e ∷ m) = omega (arith, length-keys m)

      replace-Counted :
          (l : List V) (items : List (String × V))
          → collect key_func l [] ≡ some items
          → Counted (replace key_func new_fifo l).0
      unfolding replace replace_items new_fifo
      replace-Counted l items e = rw (e, replace) (refl, omega (arith, length-keys items))

      -- After a Replace of a new FIFO that succeeds and any further calls but Replace, HasSynced is
      -- true when the queue is empty.
      pub synced_when_empty :
          (l : List V) (items : List (String × V)) (calls : List (Call V))
          → collect key_func l [] ≡ some items
          → NoReplace calls
          → (run_calls key_func process (replace key_func new_fifo l).0 calls).queue ≡ []
          → has_synced (run_calls key_func process (replace key_func new_fifo l).0 calls) ≡ true
      unfolding has_synced
      synced_when_empty l items calls e none_replaced empty =
          let (p, h) =
            run_calls-Counted (replace key_func new_fifo l).0 calls none_replaced
              (replace-Counted l items e) in
          let short : length
                (run_calls key_func process (replace key_func new_fifo l).0 calls).queue
              ≡ 0 =
            ap length empty in
          ground (arith, h)

      -- A Replace without objects, of a FIFO that still counts objects of an earlier one, leaves
      -- nothing in the queue, and HasSynced stays false through any number of calls of Pop.
      pub replace_forgets_count :
          (f : Fifo V) (n : ℕ)
          → f.populated ≡ true
          → 0 < f.initial_population_count
          → ((replace key_func f []).0.queue ≡ [])
            × (has_synced (pop_times n (replace key_func f []).0) ≡ false)
      unfolding replace replace_items collect
      replace_forgets_count f n p h =
          (refl, pop_times-unsynced n (replace key_func f []).0 refl refl (rw p h))
