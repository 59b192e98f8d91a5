-- ===== src/Sets.antt =====
-- pkg/util/sets/string.go: a set of strings, as a list without repetition. Go ranges over a map in
-- an order that is not specified; no theorem says in which order the entries of a set stand.
mod Laws
use Prim.Native.String.{String}
use flowline.Base.{
  ℕ, Bool, true, false, ◌&&◌, ltb, ◌==◌, length, List, [], ◌∷◌, Option, none, some, if◌then◌else◌,
}
use flowline.Base.Keys.{text_key, has, insert, remove}

abbrev pub StringSet : Type 0
StringSet = List String

-- Insert
unfoldable pub insert_all : StringSet → List String → StringSet
insert_all s [] = s
insert_all s (x ∷ items) = insert_all (insert s x) items

-- NewString
unfoldable pub new_string : List String → StringSet
new_string items = insert_all [] items

-- Delete
unfoldable pub delete_all : StringSet → List String → StringSet
delete_all s [] = s
delete_all s (x ∷ items) = delete_all (remove s x) items

-- HasAll
unfoldable pub has_all : StringSet → List String → Bool
has_all s [] = true
has_all s (x ∷ items) = if has s x then has_all s items else false

-- HasAny
unfoldable pub has_any : StringSet → List String → Bool
has_any s [] = false
has_any s (x ∷ items) = if has s x then true else has_any s items

difference_loop : StringSet → StringSet → StringSet → StringSet
difference_loop [] s2 result = result
difference_loop (x ∷ s) s2 result =
    difference_loop s s2 (if has s2 x then result else insert result x)

-- Difference
unfoldable pub difference : StringSet → StringSet → StringSet
unfolding difference_loop
difference s s2 = difference_loop s s2 (new_string [])

-- Union
unfoldable pub union : StringSet → StringSet → StringSet
union s1 s2 = insert_all (insert_all (new_string []) s1) s2

intersection_loop : StringSet → StringSet → StringSet → StringSet
intersection_loop [] other result = result
intersection_loop (x ∷ walk) other result =
    intersection_loop walk other (if has other x then insert result x else result)

-- Intersection
unfoldable pub intersection : StringSet → StringSet → StringSet
unfolding intersection_loop
intersection s1 s2 =
    if ltb (length s1) (length s2)
    then intersection_loop s1 s2 (new_string [])
    else intersection_loop s2 s1 (new_string [])

-- IsSuperset
unfoldable pub is_superset : StringSet → StringSet → Bool
is_superset s1 [] = true
is_superset s1 (x ∷ s2) = if has s1 x then is_superset s1 s2 else false

-- Equal
unfoldable pub equal : StringSet → StringSet → Bool
equal s1 s2 = length s1 == length s2 && is_superset s1 s2

-- PopAny; which entry it takes is not specified.
unfoldable pub pop_any : StringSet → StringSet × Option String
pop_any [] = ([], none)
pop_any (x ∷ s) = (remove (x ∷ s) x, some x)

-- UnsortedList
unfoldable pub unsorted_list : StringSet → List String
unsorted_list s = s
