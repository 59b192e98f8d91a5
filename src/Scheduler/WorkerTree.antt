-- ===== src/Scheduler/WorkerTree.antt =====
-- pkg/scheduler/cache/worker_tree.go: the names of the workers by zone. A nil pointer panics.
pub mod Laws
mod Listing
mod Rounds
mod Tests
use Prim.Native.String.{String, ◌++◌ as ◌+++◌}
use flowline.Base.{
  ℕ, zero, suc, ◌+◌, ◌-◌, Bool, true, false, ◌&&◌, leb, ltb, ◌==◌, length, get_elem?, List, [], ◌∷◌,
  ◌++◌, map, Option, none, some, if◌then◌else◌,
}
use flowline.Base.Keys.{text_key, same, has, lookup, store, erase}
use flowline.Base.Run.{Run, out_of_fuel, ok, panic}

-- The fields of meta.Worker that the tree reads; `none` for a nil map of labels.
pub record Worker : Type 0 where
  pub name : String
  pub labels : Option (List (String × String))

pub record WorkerTree : Type 0 where
  pub tree : List (String × List String)
  pub zones : List String
  pub num_workers : ℕ

abbrev or_empty : Option String → String
or_empty none = ""
or_empty (some s) = s

-- GetZoneKey
unfoldable pub get_zone_key : Worker → String
get_zone_key w = elim w.labels [
  | none ↦ ""
  | some labels ↦
      let zone = or_empty (lookup "zone" labels) in
      let region = or_empty (lookup "region" labels) in
      if same region "" && same zone "" then "" else region +++ (":\0:" +++ zone)
]

unfoldable pub new_tree : WorkerTree
new_tree = record { tree = []; zones = []; num_workers = 0 }

-- addWorker
unfoldable pub add_worker : WorkerTree → Worker → WorkerTree
add_worker nt n =
    let zone = get_zone_key n in
    elim (lookup zone nt.tree) [
      | some na ↦ if has na n.name then nt else record nt {
        tree = store zone (na ++ n.name ∷ []) nt.tree;
        num_workers = nt.num_workers + 1;
      }
      | none ↦ record {
        tree = store zone (n.name ∷ []) nt.tree;
        zones = nt.zones ++ zone ∷ [];
        num_workers = nt.num_workers + 1;
      }
    ]

-- newWorkerTree
unfoldable pub add_workers : WorkerTree → List Worker → WorkerTree
add_workers nt [] = nt
add_workers nt (n ∷ workers) = add_workers (add_worker nt n) workers

-- A slice without the first entry that equals a string.
unfoldable pub cut : List String → String → List String
cut [] x = []
cut (y ∷ l) x = if same y x then l else y ∷ cut l x

-- removeZone
unfoldable pub remove_zone : WorkerTree → String → WorkerTree
remove_zone nt zone = record nt { tree = erase zone nt.tree; zones = cut nt.zones zone }

-- removeWorker; the flag tells whether it reports an error.
unfoldable pub remove_worker : WorkerTree → Worker → WorkerTree × Bool
remove_worker nt n =
    let zone = get_zone_key n in
    elim (lookup zone nt.tree) [
      | none ↦ (nt, true)
      | some na ↦
          if has na n.name
          then (let kept = record nt { tree = store zone (cut na n.name) nt.tree } in
              let rest = if length (cut na n.name) == 0 then remove_zone kept zone else kept in
              (record rest { num_workers = nt.num_workers - 1 }, false))
          else (nt, true)
    ]

-- updateWorker; the old worker may be nil.
unfoldable pub update_worker : WorkerTree → Option Worker → Worker → Run WorkerTree
update_worker nt none new = if same "" (get_zone_key new) then ok nt else panic
update_worker nt (some old) new =
    if same (get_zone_key old) (get_zone_key new)
    then ok nt
    else ok (add_worker (remove_worker nt old).0 new)

abbrev pub workers_of : List (String × List String) → String → List String
workers_of tree zone = elim (lookup zone tree) [ none ↦ [] | some na ↦ na ]

-- The inner loop of list over the workers of each zone, with the list so far and the number of
-- exhausted zones. A zone is exhausted from the index on at which it has no worker.
unfoldable pub list_zones : List (List String) → ℕ → List String → ℕ → List String × ℕ
list_zones [] index workers_list exhausted = (workers_list, exhausted)
list_zones (na ∷ zones) index workers_list exhausted = elim (get_elem? na index) [
  | none ↦
      list_zones zones index workers_list (if index == length na then exhausted + 1 else exhausted)
  | some name ↦ list_zones zones index (workers_list ++ name ∷ []) exhausted
]

-- The outer loop of list; the flag tells whether it reports an error.
unfoldable pub list_loop : ℕ → WorkerTree → ℕ → List String → ℕ → Run (List String × Bool)
list_loop zero nt index workers_list exhausted = out_of_fuel
list_loop (suc fuel) nt index workers_list exhausted =
    if leb nt.num_workers (length workers_list)
    then ok (workers_list, false)
    else (if leb (length nt.zones) exhausted
        then ok (workers_list, true)
        else (let (longer, more) =
              list_zones (map (workers_of nt.tree) nt.zones) index workers_list exhausted in
            list_loop fuel nt (index + 1) longer more))

-- list
unfoldable pub list : WorkerTree → Run (List String × Bool)
list nt = if length nt.zones == 0 then ok ([], false) else list_loop (nt.num_workers + 1) nt 0 [] 0
