-- ===== src/DeltaFifo/Histories.antt =====
-- What every history of calls of a DeltaFIFO keeps, and what Pop then takes.
use Prim.Native.String.{String}
use flowline.Base.{
  ◌-◌, ◌<◌, ◌≡◌, subst, refl, Bool, length, All, List, [], ◌∷◌, Option, none, some, if◌then◌else◌,
  arith, Option-cases, inl, inr,
}
use flowline.Base.Keys.{text_key, has, lookup, erase}
use flowline.Fifo
use flowline.Fifo.{
  Fifo, Processed, fine, failed, requeue, PopResult, blocked, fifo_closed, popped, process_item,
  pop_loop, new_fifo,
}
use flowline.DeltaFifo.{
  added, updated, Obj, Deltas, DeltaFifo, Known, new_delta_fifo, pop, populate, add, update,
  add_if_not_present, close, delete, replace, resync,
}
use flowline.DeltaFifo.Deltas.{Compressed}
use flowline.DeltaFifo.Invariant.{Held, Inv, take_head, queue_action-Inv}
use flowline.DeltaFifo.Methods.{
  add_by_id-Inv, add_if_not_present-Inv, delete-Inv, replace-Inv, resync-Inv,
}

-- A call of a method, with the known objects at that time.
pub data Call {ℓ} (V : Type ℓ) : Type ℓ where
  call_add call_update : Obj V → Call V
  call_add_if_not_present : Deltas V → Call V
  call_delete : Option (Known V) → Obj V → Call V
  call_replace : Option (Known V) → List (Obj V) → Call V
  call_resync : Option (Known V) → Call V
  call_pop call_close : Call V

-- The deltas given to AddIfNotPresent are as the FIFO makes them.
abbrev pub ProperCall {ℓ} : {V : Type ℓ} → Call V → Type 0
ProperCall (call_add o) = Unit
ProperCall (call_update o) = Unit
ProperCall (call_add_if_not_present d) = Compressed d
ProperCall (call_delete known o) = Unit
ProperCall (call_replace known l) = Unit
ProperCall (call_resync known) = Unit
ProperCall call_pop = Unit
ProperCall call_close = Unit

module _ {ℓ} {V : Type ℓ} where
  module _ {κ} {E : Type κ} (process : Deltas V → Processed E) where
    -- Pop, of the id at the head of the queue.
    head_taken :
        (f : DeltaFifo V) (id : String) (rest : List String) (d : Deltas V)
        → f.queue ≡ id ∷ rest
        → lookup id f.items ≡ some d
        → pop process f
          ≡ process_item
              (process d)
              (record f {
                queue = rest;
                initial_population_count = f.initial_population_count - 1;
                items = erase id f.items;
              })
              id
              d
    unfolding pop Fifo.pop pop_loop
    head_taken f id rest d e there = rw (e, pop_loop, there) refl

    -- Pop of a DeltaFIFO whose queue is as every history of calls leaves it: it waits, or ends if the
    -- FIFO is closed, exactly if the queue is empty. Otherwise the id at the head has deltas, at least
    -- one and with no deletion after another; they are taken out and the callback gets them.
    pop_takes_head :
        (f : DeltaFifo V)
        → Inv f
        → (f.queue ≡ []
            → pop process f ≡ (record f { queue = [] }, if f.closed then fifo_closed else blocked))
          × ((id : String) (rest : List String)
              → f.queue ≡ id ∷ rest
              → (d : Deltas V) × (lookup id f.items ≡ some d)
                × Compressed d
                × (0 < length d)
                × (pop process f
                    ≡ process_item
                        (process d)
                        (record f {
                          queue = rest;
                          initial_population_count = f.initial_population_count - 1;
                          items = erase id f.items;
                        })
                        id
                        d))
    unfolding pop Fifo.pop pop_loop has
    pop_takes_head f v = (
      λ e. rw (e, pop_loop) refl,
      λ id rest e. elim (Option-cases (lookup id f.items)) [
        | inl missing ↦ absurd (ground (arith, v.queued id))
        | inr (d, there) ↦ (
          d,
          there,
          (v.proper id d there).0,
          (v.proper id d there).1,
          head_taken f id rest d e there,
        )
      ],
    )

    process_item-Inv :
        (p : Processed E) (f : DeltaFifo V) (id : String) (d : Deltas V)
        → Compressed d
        → 0 < length d
        → Inv f
        → Inv (process_item p f id d).0
    unfolding process_item
    process_item-Inv fine f id d c n v = v
    process_item-Inv (failed e) f id d c n v = v
    process_item-Inv (requeue e) f id d c n v = add_by_id-Inv (λ o. none) f id d c n v

    pop-Inv :
        (f : DeltaFifo V) (queue : List String) → f.queue ≡ queue → Inv f → Inv (pop process f).0
    pop-Inv f [] e v = rw ((pop_takes_head f v).0 e) (subst (λ q. Held q f.items) e v)
    pop-Inv f (id ∷ rest) e v =
        let (d, there, compressed, not_empty, taken) = (pop_takes_head f v).1 id rest e in
        rw taken (
          process_item-Inv (process d) _ id d compressed not_empty
            (take_head id rest f.items (subst (λ q. Held q f.items) e v)))

    module _ (key_func : Obj V → Option String) (emit_replaced : Bool) where
      unfoldable pub run_call : DeltaFifo V → Call V → DeltaFifo V
      run_call f (call_add o) = (add key_func f o).0
      run_call f (call_update o) = (update key_func f o).0
      run_call f (call_add_if_not_present d) = (add_if_not_present key_func f d).0
      run_call f (call_delete known o) = (delete key_func known f o).0
      run_call f (call_replace known l) = (replace key_func emit_replaced known f l).0
      run_call f (call_resync known) = (resync key_func known f).0
      run_call f call_pop = (pop process f).0
      run_call f call_close = close f

      unfoldable pub run_calls : DeltaFifo V → List (Call V) → DeltaFifo V
      run_calls f [] = f
      run_calls f (call ∷ calls) = run_calls (run_call f call) calls

      run_call-Inv :
          (f : DeltaFifo V) (call : Call V) → ProperCall call → Inv f → Inv (run_call f call)
      unfolding run_call add update close
      run_call-Inv f (call_add o) p v = queue_action-Inv key_func (populate key_func f) added o v
      run_call-Inv f (call_update o) p v =
          queue_action-Inv key_func (populate key_func f) updated o v
      run_call-Inv f (call_add_if_not_present d) p v = add_if_not_present-Inv key_func f d p v
      run_call-Inv f (call_delete known o) p v = delete-Inv key_func known f o v
      run_call-Inv f (call_replace known l) p v = replace-Inv key_func emit_replaced known f l v
      run_call-Inv f (call_resync known) p v = resync-Inv key_func known f v
      run_call-Inv f call_pop p v = pop-Inv f f.queue refl v
      run_call-Inv f call_close p v = v

      run_calls-Inv :
          (f : DeltaFifo V) (calls : List (Call V))
          → All ProperCall calls
          → Inv f
          → Inv (run_calls f calls)
      unfolding run_calls
      run_calls-Inv f [] p v = v
      run_calls-Inv f (call ∷ calls) (first, later) v =
          run_calls-Inv (run_call f call) calls later (run_call-Inv f call first v)

      -- After any history of calls of a new DeltaFIFO, whatever the key function, the known objects and
      -- the callback are, if the lists given to AddIfNotPresent have no deletion after another: the ids
      -- in the queue are those with deltas, each once; the deltas of an id are at least one, and no two
      -- deletions follow each other.
      pub delta_histories-Inv :
          (calls : List (Call V)) → All ProperCall calls → Inv (run_calls new_delta_fifo calls)
      unfolding new_delta_fifo new_fifo lookup has
      delta_histories-Inv calls p = run_calls-Inv new_delta_fifo calls p (record {
        queued = λ id. refl;
        queue_once = tt;
        keys_once = tt;
        proper = λ id d e. absurd cc;
      })
