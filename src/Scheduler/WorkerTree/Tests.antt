-- ===== src/Scheduler/WorkerTree/Tests.antt =====
-- The tree of workers at concrete inputs.
use flowline.Base.{refl, ◌≡◌, false, not, ◌||◌, [], ◌∷◌, some, if◌then◌else◌}
use flowline.Base.Keys.{text_key, same, has, text_same, lookup, store}
use flowline.Scheduler.WorkerTree.{
  Worker, WorkerTree, get_zone_key, new_tree, add_worker, remove_worker, list, list_loop,
  list_zones,
}
use flowline.Base.Run.{ok, Returns}
use flowline.Scheduler.WorkerTree.Listing.{Complete, list-Complete}
use flowline.Scheduler.WorkerTree.Laws.{
  Inv, Changed, names_in, new-Inv, add_worker_correct, remove_worker_correct,
}

program : Unit {0}
unfolding add_worker new_tree get_zone_key list list_loop list_zones text_same lookup store has
program = tt

abbrev east : Worker
east = record { name = "w1"; labels = some (("zone", "a") ∷ ("region", "east") ∷ []) }

abbrev one : WorkerTree
one = add_worker new_tree east

add_worker_correct_example :
    Changed new_tree
      (get_zone_key east)
      (λ name. has (names_in new_tree (get_zone_key east)) name || same "w1" name)
      one
add_worker_correct_example = add_worker_correct new_tree east new-Inv

one-Inv : Inv one
one-Inv = add_worker_correct_example.inv

remove_worker_correct_example :
    Changed one
      (get_zone_key east)
      (λ name. if same "w1" name then false else has (names_in one (get_zone_key east)) name)
      (remove_worker one east).0
    × ((remove_worker one east).1 ≡ not (has (names_in one (get_zone_key east)) "w1"))
    × (has (names_in one (get_zone_key east)) "w1" ≡ false → (remove_worker one east).0 ≡ one)
remove_worker_correct_example = remove_worker_correct one east one-Inv

abbrev west : Worker
west = record { name = "w2"; labels = some (("zone", "b") ∷ ("region", "west") ∷ []) }

abbrev three : WorkerTree
three =
    add_worker (add_worker one west)
      (record { name = "w3"; labels = some (("zone", "a") ∷ ("region", "east") ∷ []) })

three-Inv : Inv three
three-Inv =
    (add_worker_correct (add_worker one west)
      (record { name = "w3"; labels = some (("zone", "a") ∷ ("region", "east") ∷ []) })
      (add_worker_correct one west one-Inv).inv).inv

list-Complete_example : Returns (Complete three) (list three)
list-Complete_example = list-Complete three three-Inv

-- The zones take turns.
list_takes_turns : list three ≡ ok ("w1" ∷ "w2" ∷ "w3" ∷ [], false)
unfolding program
list_takes_turns = refl
