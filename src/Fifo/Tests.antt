-- ===== src/Fifo/Tests.antt =====
-- A FIFO of strings, each its own key.
use Prim.Native.String.{String}
use flowline.Base.{none, ℕ, ◌≡◌, refl, true, false, List, [], ◌∷◌, Option, some, arith}
use flowline.Base.Keys.{text_key, text_same, lookup, store, erase}
use flowline.Fifo.{
  Fifo, Processed, fine, requeue, new_fifo, pop, replace, replace_items, collect, resync,
  has_synced, pop_loop, process_item,
}
use flowline.Fifo.Invariant.{
  Call, Inv, call_add, call_delete, call_pop, run_call, run_calls, histories-Inv,
}
use flowline.Fifo.Order.{PopEnds, pop_takes_first}
use flowline.Fifo.Synced.{synced_when_empty, replace_forgets_count, pop_times}

abbrev own_key : String → Option String
own_key s = some s

abbrev accept : String → Processed ℕ
accept s = fine

abbrev calls : List (Call String)
calls = call_add "a" ∷ call_add "b" ∷ call_delete "a" ∷ call_pop ∷ []

histories-Inv_example :
    Inv (run_calls own_key accept new_fifo calls)
    × ((resync (run_calls own_key accept new_fifo calls)).queue
        ≡ (run_calls own_key accept new_fifo calls).queue)
histories-Inv_example = histories-Inv own_key accept calls

abbrev before : List (Call String)
before = call_add "a" ∷ call_add "b" ∷ call_delete "a" ∷ []

abbrev again : String → Processed ℕ
again s = requeue none

-- The id of the deleted object is still in the queue, and the object after it is to be requeued.
pop_takes_first_example :
    PopEnds again
      (run_calls own_key accept new_fifo before)
      (run_calls own_key accept new_fifo before).queue
      (pop again (run_calls own_key accept new_fifo before))
pop_takes_first_example =
    pop_takes_first again (run_calls own_key accept new_fifo before)
      (histories-Inv own_key accept before).0

program : Unit {0}
unfolding run_calls run_call replace replace_items collect new_fifo store erase lookup text_same pop
    pop_loop process_item
program = tt

synced_when_empty_example :
    has_synced (run_calls own_key accept (replace own_key new_fifo ("a" ∷ [])).0 (call_pop ∷ []))
    ≡ true
unfolding program
synced_when_empty_example =
    synced_when_empty accept own_key ("a" ∷ []) (("a", "a") ∷ []) (call_pop ∷ []) refl (refl, tt)
      refl

abbrev counting : Fifo String
counting = record new_fifo {
  items = ("a", "a") ∷ [];
  queue = "a" ∷ [];
  populated = true;
  initial_population_count = 1;
}

replace_forgets_count_example :
    ((replace own_key counting []).0.queue ≡ [])
    × (has_synced (pop_times accept 2 (replace own_key counting []).0) ≡ false)
replace_forgets_count_example = replace_forgets_count accept own_key counting 2 refl (omega arith)
