-- ===== src/Fifo/Invariant.antt =====
-- What every history of calls of a FIFO keeps.
use Prim.Native.String.{String}
use flowline.Base.{
  ◌-◌, ◌≡◌, sym, refl, Bool, true, false, List, [], ◌∷◌, Option, none, some, is_some, arith,
  Option-cases, inl, inr,
}
use flowline.Base.Keys.{
  text_key, has, has-append, lookup, store, erase, keys, Distinct, has-keys, lookup-store,
  lookup-erase, keys-store-Distinct, keys-erase-Distinct,
}
use flowline.Fifo.{
  Fifo, Processed, fine, failed, requeue, new_fifo, close, add_by_id, add_if_not_present_by_id,
  delete_by_id, add, add_if_not_present, delete, collect, replace, replace_items, resync,
  resync_loop, process_item, pop_loop, pop,
}

-- A call of a method.
pub data Call {ℓ} (V : Type ℓ) : Type ℓ where
  call_add call_add_if_not_present call_delete : V → Call V
  call_replace : List V → Call V
  call_pop call_resync call_close : Call V

module _ {ℓ} {V : Type ℓ} where
  -- Every id with an object is in the queue, and has one object.
  pub record Inv (f : Fifo V) : Type ℓ where
    pub queued : (id : String) → is_some (lookup id f.items) ≡ true → has f.queue id ≡ true
    pub keys_once : Distinct (keys f.items)

  add_by_id-Inv : (f : Fifo V) (id : String) (obj : V) → Inv f → Inv (add_by_id f id obj)
  unfolding add_by_id has
  add_by_id-Inv f id obj v = record {
    queued = λ j h.
        ground (arith, lookup-store id j obj f.items, v.queued j, has-append f.queue (id ∷ []) j);
    keys_once = keys-store-Distinct id obj f.items v.keys_once;
  }

  add_if_not_present_by_id-Inv :
      (f : Fifo V) (id : String) (obj : V) → Inv f → Inv (add_if_not_present_by_id f id obj)
  unfolding add_if_not_present_by_id has
  add_if_not_present_by_id-Inv f id obj v = elim (Option-cases (lookup id f.items)) [
    | inl missing ↦
        rw (missing, add_if_not_present_by_id)
          (record {
            queued = λ j h.
                ground (
                  arith,
                  lookup-store id j obj f.items,
                  v.queued j,
                  has-append f.queue (id ∷ []) j,
                );
            keys_once = keys-store-Distinct id obj f.items v.keys_once;
          })
    | inr (old, there) ↦
        rw (there, add_if_not_present_by_id) (record { queued = v.queued; keys_once = v.keys_once })
  ]

  delete_by_id-Inv : (f : Fifo V) (id : String) → Inv f → Inv (delete_by_id f id)
  unfolding delete_by_id
  delete_by_id-Inv f id v = record {
    queued = λ j h. ground (arith, lookup-erase id j f.items, v.queued j);
    keys_once = keys-erase-Distinct id f.items v.keys_once;
  }

  process_item-Inv {κ} :
      {E : Type κ} (p : Processed E) (f : Fifo V) (id : String) (item : V)
      → Inv f
      → Inv (process_item p f id item).0
  unfolding process_item
  process_item-Inv fine f id item v = v
  process_item-Inv (failed e) f id item v = v
  process_item-Inv (requeue e) f id item v = add_if_not_present_by_id-Inv f id item v

  module _ {κ} {E : Type κ} (process : V → Processed E) where
    -- The queue of the state and the ids that are left differ while the loop runs.
    pop_loop-Inv :
        (f : Fifo V) (queue : List String)
        → ((id : String) → is_some (lookup id f.items) ≡ true → has queue id ≡ true)
        → Distinct (keys f.items)
        → Inv (pop_loop process f queue).0
    unfolding pop_loop has
    pop_loop-Inv f [] listed d = record { queued = listed; keys_once = d }
    pop_loop-Inv f (id ∷ queue) listed d =
        let taken = record f {
          queue = queue;
          initial_population_count = f.initial_population_count - 1;
        } in
        elim (Option-cases (lookup id f.items)) [
          | inl missing ↦
              rw (missing, pop_loop) (pop_loop-Inv taken queue (λ j h. ground (arith, listed j)) d)
          | inr (item, there) ↦
              rw (there, pop_loop)
                (process_item-Inv (process item) (record taken { items = erase id f.items }) id item
                  (record {
                    queued = λ j h. ground (arith, lookup-erase id j f.items, listed j);
                    keys_once = keys-erase-Distinct id f.items d;
                  }))
        ]

    pop-Inv : (f : Fifo V) → Inv f → Inv (pop process f).0
    unfolding pop
    pop-Inv f v = pop_loop-Inv f f.queue v.queued v.keys_once

  module _ (key_func : V → Option String) where
    collect-Distinct :
        (l : List V) (items m : List (String × V))
        → Distinct (keys items)
        → collect key_func l items ≡ some m
        → Distinct (keys m)
    unfolding collect
    collect-Distinct [] items m d e = let it : items ≡ m = ground arith in rw (sym it) d
    collect-Distinct (obj ∷ l) items m d e = elim (Option-cases (key_func obj)) [
      | inl missing ↦ absurd (ground arith)
      | inr (id, there) ↦
          collect-Distinct l (store id obj items) m (keys-store-Distinct id obj items d)
            (ground arith)
    ]

    replace_items-Inv :
        (f : Fifo V) (items : List (String × V))
        → Distinct (keys items)
        → Inv (replace_items key_func f items)
    unfolding replace_items
    replace_items-Inv f items d = record {
      queued = λ id h. ground (arith, has-keys id items);
      keys_once = d;
    }

    replace-Inv : (f : Fifo V) (l : List V) → Inv f → Inv (replace key_func f l).0
    unfolding replace
    replace-Inv f l v = elim (Option-cases (collect key_func l [])) [
      | inl missing ↦ rw (missing, replace) v
      | inr (items, there) ↦
          rw (there, replace) (replace_items-Inv f items (collect-Distinct l [] items tt there))
    ]

    -- A method that acts on the key of an object.
    keyed_call :
        (o : Option String) (f : Fifo V) (g : String → Fifo V)
        → Inv f
        → ((id : String) → Inv (g id))
        → Inv ((elim o as (λ _. Fifo V × Bool) [ none ↦ (f, true) | some id ↦ (g id, false) ]).0)
    keyed_call none f g v w = v
    keyed_call (some id) f g v w = w id

    module _ {κ} {E : Type κ} (process : V → Processed E) where
      unfoldable pub run_call : Fifo V → Call V → Fifo V
      run_call f (call_add obj) = (add key_func f obj).0
      run_call f (call_add_if_not_present obj) = (add_if_not_present key_func f obj).0
      run_call f (call_delete obj) = (delete key_func f obj).0
      run_call f (call_replace l) = (replace key_func f l).0
      run_call f call_pop = (pop process f).0
      run_call f call_resync = resync f
      run_call f call_close = close f

      unfoldable pub run_calls : Fifo V → List (Call V) → Fifo V
      run_calls f [] = f
      run_calls f (call ∷ calls) = run_calls (run_call f call) calls

      resync_none :
          (in_queue : List String) (items : List (String × V)) (queue : List String)
          → ((id : String) → has (keys items) id ≡ true → has in_queue id ≡ true)
          → resync_loop in_queue items queue ≡ queue
      unfolding resync_loop has
      resync_none in_queue [] queue h = refl
      resync_none in_queue ((id, obj) ∷ items) queue h =
          let rest = resync_none in_queue items queue (λ j e. ground (arith, h j)) in
          ground (arith, h id)

      -- Resync of a FIFO in which every id with an object is in the queue leaves the queue as it is.
      pub resync_adds_nothing : (f : Fifo V) → Inv f → (resync f).queue ≡ f.queue
      unfolding resync
      resync_adds_nothing f v =
          resync_none f.queue f.items f.queue
            (λ id h. ground (arith, has-keys id f.items, v.queued id))

      run_call-Inv : (f : Fifo V) (call : Call V) → Inv f → Inv (run_call f call)
      unfolding run_call add add_if_not_present delete close resync
      run_call-Inv f (call_add obj) v =
          keyed_call (key_func obj) f (λ id. add_by_id f id obj) v (λ id. add_by_id-Inv f id obj v)
      run_call-Inv f (call_add_if_not_present obj) v =
          keyed_call (key_func obj) f (λ id. add_if_not_present_by_id f id obj) v
            (λ id. add_if_not_present_by_id-Inv f id obj v)
      run_call-Inv f (call_delete obj) v =
          keyed_call (key_func obj) f (λ id. delete_by_id f id) v (λ id. delete_by_id-Inv f id v)
      run_call-Inv f (call_replace l) v = replace-Inv f l v
      run_call-Inv f call_pop v = pop-Inv process f v
      run_call-Inv f call_resync v = record {
        queued = λ id h. rw (resync_adds_nothing f v) (v.queued id h);
        keys_once = v.keys_once;
      }
      run_call-Inv f call_close v = record { queued = v.queued; keys_once = v.keys_once }

      run_calls-Inv : (f : Fifo V) (calls : List (Call V)) → Inv f → Inv (run_calls f calls)
      unfolding run_calls
      run_calls-Inv f [] v = v
      run_calls-Inv f (call ∷ calls) v =
          run_calls-Inv (run_call f call) calls (run_call-Inv f call v)

      -- After any history of calls of a new FIFO, whatever the key function and the callback do, every
      -- id with an object is in the queue and has one object, and Resync leaves the queue as it is.
      pub histories-Inv :
          (calls : List (Call V))
          → Inv (run_calls new_fifo calls)
            × ((resync (run_calls new_fifo calls)).queue ≡ (run_calls new_fifo calls).queue)
      unfolding new_fifo lookup
      histories-Inv calls =
          let v =
            run_calls-Inv new_fifo calls
              (record { queued = λ id h. ground arith; keys_once = tt }) in
          (v, resync_adds_nothing (run_calls new_fifo calls) v)
