-- ===== src/Scheduler/Cache/Pointers.antt =====
-- pkg/scheduler/cache/cache.go: the pointers of the list of the workers. A pointer to an item is the
-- item's key; a new item under a key takes the place of an old one.
pub mod Unlink
pub mod Moves
use Prim.Native.String.{String}
use flowline.Base.{◌≡◌, Bool, false, List, [], ◌∷◌, Option, none, some, if◌then◌else◌}
use flowline.Base.Keys.{text_key, same}

-- workerInfoListItem's pointers, by item, and headWorker.
pub record Links : Type 0 where
  pub next : String → Option String
  pub prev : String → Option String
  pub head_worker : Option String

abbrev pub points : Option String → String → Bool
points none j = false
points (some x) j = same x j

abbrev pub no_links : Links
no_links = record { next = λ j. none; prev = λ j. none; head_worker = none }

-- An assignment to a pointer of an item.
abbrev pub point : String → Option String → (String → Option String) → String → Option String
point x to ptr j = if same x j then to else ptr j

abbrev pub point_from :
    Option String → Option String → (String → Option String) → String → Option String
point_from none to ptr j = ptr j
point_from (some x) to ptr j = point x to ptr j

-- newWorkerInfoListItem
unfoldable pub new_item : Links → String → Links
new_item l u = record l { next = point u none l.next; prev = point u none l.prev }

-- The neighbours of an item are linked to each other.
unfoldable pub unlink : Links → String → Links
unlink l u =
    let next = point_from (l.prev u) (l.next u) l.next in
    record l { next = next; prev = point_from (next u) (l.prev u) l.prev }

-- removeWorkerInfoFromList
unfoldable pub remove_item : Links → String → Links
remove_item l u =
    let m = unlink l u in if points m.head_worker u then record m { head_worker = m.next u } else m

-- moveWorkerInfoToHead
unfoldable pub move_item : Links → String → Links
move_item l u =
    if points l.head_worker u
    then l
    else let m = unlink l u in
      record {
        next = point u m.head_worker m.next;
        prev = point u none (point_from m.head_worker (some u) m.prev);
        head_worker = some u;
      }

abbrev pub first : List String → Option String
first [] = none
first (x ∷ xs) = some x

-- The items of a list, one after the other, after an item or at the head.
abbrev pub Chain : Links → Option String → List String → Type 0
Chain l p [] = Unit {0}
Chain l p (x ∷ xs) = (l.prev x ≡ p) × (l.next x ≡ first xs) × Chain l (some x) xs

abbrev pub Linked : Links → List String → Type 0
Linked l xs = (l.head_worker ≡ first xs) × Chain l none xs
