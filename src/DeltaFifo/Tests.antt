-- ===== src/DeltaFifo/Tests.antt =====
-- A DeltaFIFO of strings, each its own key.
use Prim.Native.String.{String}
use flowline.Base.{ℕ, ◌≡◌, refl, true, List, [], ◌∷◌, Option, none, some}
use flowline.Base.Keys.{text_key, text_same, lookup, store, erase, has, insert}
use flowline.Fifo.{Processed, requeue, process_item, pop_loop, new_fifo}
use flowline.DeltaFifo.{
  added, deleted, replaced, Obj, nothing, object, deleted_final_state_unknown, Deltas, DeltaFifo,
  new_delta_fifo, pop, replace, newest, dedup_deltas, is_dup, kept_object, queue_action,
  queue_deltas, key_of, add, delete, unknown_to,
}
use flowline.DeltaFifo.Histories.{
  Call, call_add, call_delete, call_replace, call_pop, call_resync, run_call, run_calls,
  delta_histories-Inv,
}
use flowline.DeltaFifo.Invariant.{Inv}
use flowline.DeltaFifo.Replaced.{Outcome, replace_refines}

abbrev own_key : Obj String → Option String
own_key nothing = none
own_key (object s) = some s
own_key (deleted_final_state_unknown k o) = none

-- The callback puts every object back.
abbrev again : Deltas String → Processed ℕ
again d = requeue none

abbrev calls : List (Call String)
calls =
    call_add (object "a")
    ∷ call_add (object "b")
    ∷ call_delete none (object "a")
    ∷ call_delete none (object "a")
    ∷ call_pop
    ∷ call_replace none (object "c" ∷ [])
    ∷ call_resync none
    ∷ []

delta_histories-Inv_example : Inv (run_calls again own_key true new_delta_fifo calls)
delta_histories-Inv_example =
    delta_histories-Inv again own_key true calls (tt, (tt, (tt, (tt, (tt, (tt, (tt, tt)))))))

abbrev calls_before : List (Call String)
calls_before =
    call_add (object "a")
    ∷ call_add (object "b")
    ∷ call_delete none (object "a")
    ∷ call_delete none (object "a")
    ∷ []

abbrev before : DeltaFifo String
before = run_calls again own_key true new_delta_fifo calls_before

before-Inv : Inv before
before-Inv = delta_histories-Inv again own_key true calls_before (tt, (tt, (tt, (tt, tt))))

program : Unit {0}
unfolding run_calls run_call new_delta_fifo new_fifo store erase lookup text_same has insert pop
    pop_loop process_item newest dedup_deltas is_dup kept_object queue_action queue_deltas key_of
    add delete unknown_to
program = tt

-- Two deletions of "a" are one delta.
two_deletions :
    lookup "a" before.items
    ≡ some (
        record { delta_type = added; obj = object "a" }
        ∷ record { delta_type = deleted; obj = object "a" }
        ∷ [])
unfolding program
two_deletions = refl

replace_refines_example :
    ((replace own_key true none before (object "b" ∷ object "c" ∷ [])).1 ≡ none)
    × ((id : String)
        → Outcome own_key replaced none before
            (object "b" ∷ object "c" ∷ [])
            (replace own_key true none before (object "b" ∷ object "c" ∷ [])).0.items
            id)
unfolding program
replace_refines_example =
    replace_refines own_key true none before (object "b" ∷ object "c" ∷ []) before-Inv
      (("b", refl), (("c", refl), tt))
