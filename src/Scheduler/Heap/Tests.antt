-- ===== src/Scheduler/Heap/Tests.antt =====
-- The heap at concrete inputs: jobs with a name and a rank.
use Prim.Native.String.{String}
use flowline.Base.{
  ℕ, ◌≡◌, refl, Bool, false, ltb, Option, none, some, [], ◌∷◌, arith, if◌then◌else◌, is_some,
}
use flowline.Base.Keys.{text_key, same, lookup, store, erase, text_same}
use flowline.Base.Run.{ok, Returns, Returns-ok}
use flowline.GoHeap.{
  heap_push, heap_pop, heap_remove, heap_fix, sink_or_rise, up, down, up_loop, down_loop,
  smaller_child,
}
use flowline.Scheduler.Heap.{
  HeapData, object_not_found, get_by_key, new, push, pop, swap, put_index, less, add, delete,
  pop_head,
}
use flowline.Scheduler.Heap.Invariant.{IsOrder}
use flowline.Scheduler.Heap.Valid.{Valid, new-Valid}
use flowline.Scheduler.Heap.Add.{Added, add_correct}
use flowline.Scheduler.Heap.Remove.{Removed, delete_total, pop_head_correct}

record Job : Type 0 where
  name : String
  rank : ℕ

abbrev job : String → ℕ → Job
job name rank = record { name = name; rank = rank }

abbrev first : Job → Job → Bool
first a b = ltb a.rank b.rank

abbrev name_of : Job → Option String
name_of a = some a.name

first-IsOrder : IsOrder first
first-IsOrder = record { asym = λ x y h. ground arith; trans = λ x y z p q. ground arith }

program : Unit {0}
unfolding heap_push heap_pop heap_remove heap_fix sink_or_rise up down up_loop down_loop
    smaller_child get_by_key new push pop swap put_index less add delete pop_head text_same lookup
    store erase
program = tt

abbrev one : HeapData Job
one = record { items = ("b", record { obj = job "b" 2; index = 0 }) ∷ []; queue = "b" ∷ [] }

abbrev two : HeapData Job
two = record {
  items =
      ("b", record { obj = job "b" 2; index = 1 })
      ∷ ("a", record { obj = job "a" 1; index = 0 })
      ∷ [];
  queue = "a" ∷ "b" ∷ [];
}

add-new : add first name_of new (job "b" 2) ≡ ok (one, none)
unfolding program
add-new = refl

add-one : add first name_of one (job "a" 1) ≡ ok (two, none)
unfolding program
add-one = refl

pop_head-two : pop_head first two ≡ ok (one, some (job "a" 1), none)
unfolding program
pop_head-two = refl

one-Valid : Valid first name_of first-IsOrder one
unfolding program
one-Valid =
    (Returns-ok (
      add_correct first name_of first-IsOrder new (job "b" 2) "b"
        (new-Valid first name_of first-IsOrder) refl)).valid

add_correct_example :
    Returns
      (Added first name_of first-IsOrder one "a" (job "a" 1))
      (add first name_of one (job "a" 1))
add_correct_example = add_correct first name_of first-IsOrder one (job "a" 1) "a" one-Valid refl

two-Valid : Valid first name_of first-IsOrder two
unfolding program
two-Valid = (Returns-ok add_correct_example).valid

delete_total_example :
    Returns
      (λ (e, err).
        Valid first name_of first-IsOrder e
        × ((j : String) → get_by_key e j ≡ (if same "b" j then none else get_by_key two j))
        × (err ≡ (if is_some (get_by_key two "b") then none else some object_not_found)))
      (delete first name_of two (job "b" 7))
delete_total_example = delete_total first name_of first-IsOrder two (job "b" 7) "b" two-Valid refl

pop_head_correct_example :
    Returns
      (λ (e, obj, err).
        (err ≡ none)
        × ((k : String) × (x : Job) × (obj ≡ some x)
            × Removed first name_of first-IsOrder two k x e
            × ((j : String) (y : Job) → get_by_key two j ≡ some y → first y x ≡ false)))
      (pop_head first two)
pop_head_correct_example = pop_head_correct first name_of first-IsOrder two two-Valid (omega arith)
