-- ===== src/Store/Tests.antt =====
-- A store of strings with an index under the string itself and one under a common value.
use Prim.Native.String.{String}
use flowline.Base.{
  ◌≡◌, refl, ltb, length, false, All, List, [], ◌∷◌, map, some, Option, if◌then◌else◌, none,
}
use flowline.Base.Keys.{
  text_key, text_same, same, has, insert, remove, Distinct, lookup, store, erase,
}
use flowline.Base.Run.{ok, Returns, Returns-ok}
use flowline.Store.{
  IndexFunc, Indexers, ThreadSafeMap, answer, new_store, index, by_index, index_keys,
  list_index_func_values, update, delete, replace, rebuild, update_indices, update_index,
  index_values, unchanged, add_values, delete_values, add_key_to_index, delete_key_from_index,
}
use flowline.Store.Invariant.{Total, indexed}
use flowline.Store.Writes.{Inv}
use flowline.Store.Histories.{
  Call, call_update, call_delete, run_call, run_calls, store_histories-Inv,
}
use flowline.Store.Cache.{add, remove_object, replace_all, get_by_key, last_with, get-write}
use flowline.Store.Lookups.{shares, index_correct, by_index_correct}

abbrev by_itself : IndexFunc String
by_itself s = some (s ∷ [])

abbrev by_both : IndexFunc String
by_both s = some ("all" ∷ s ∷ [])

abbrev indexers : Indexers String
indexers = ("self", by_itself) ∷ ("both", by_both) ∷ []

program : Unit {0}
unfolding run_calls run_call new_store update delete replace rebuild update_indices update_index
    index_values unchanged add_values delete_values add_key_to_index delete_key_from_index store
    erase lookup text_same has insert remove
program = tt

abbrev calls : List (Call String)
calls = call_update "k" "x" ∷ call_update "k" "y" ∷ call_update "l" "x" ∷ call_delete "l" ∷ []

indexers_total : All Total indexers
indexers_total = ((λ s. (s ∷ [], refl)), ((λ s. ("all" ∷ s ∷ [], refl)), tt))

store_histories-Inv_example : Returns Inv (run_calls (new_store indexers) calls)
unfolding program
store_histories-Inv_example =
    store_histories-Inv indexers calls (refl, (refl, tt)) indexers_total (tt, (tt, (tt, (tt, tt))))

abbrev after : ThreadSafeMap String
after = record {
  items = ("k", "y") ∷ [];
  indexers = indexers;
  indices =
      ("self", ("y", "k" ∷ []) ∷ []) ∷ ("both", ("all", "k" ∷ []) ∷ ("y", "k" ∷ []) ∷ []) ∷ [];
}

calls_return : run_calls (new_store indexers) calls ≡ ok after
unfolding program
calls_return = refl

after-Inv : Inv after
after-Inv = Returns-ok (rw calls_return at store_histories-Inv_example)

index_correct_example :
    (s : List String) × (index after "both" "y" ≡ answer (map (λ k. lookup k after.items) s))
    × Distinct s
    × ((k : String) → has s k ≡ shares by_both (lookup k after.items) ("all" ∷ "y" ∷ []))
unfolding program
index_correct_example =
    index_correct after "both" by_both "y" ("all" ∷ "y" ∷ []) after-Inv refl refl

by_index_correct_example :
    (s : List String) × (index_keys after "self" "y" ≡ answer s)
    × (by_index after "self" "y" ≡ answer (map (λ k. lookup k after.items) s))
    × Distinct s
    × ((k : String) → has s k ≡ indexed (some by_itself) (lookup k after.items) "y")
    × (has (list_index_func_values after "self") "y" ≡ ltb 0 (length s))
unfolding program
by_index_correct_example = by_index_correct after "self" by_itself "y" after-Inv refl

abbrev own_key : String → Option String
own_key s = some s

get-write_example :
    Returns
      (λ r.
        Inv r.0
        × (r.1 ≡ false)
        × ((k : String)
            → get_by_key own_key r.0 k
              ≡ (if same "z" k then some "z" else get_by_key own_key after k)))
      (add own_key after "z")
    × Returns
        (λ r.
          Inv r.0
          × (r.1 ≡ false)
          × ((k : String)
              → get_by_key own_key r.0 k
                ≡ (if same "z" k then none else get_by_key own_key after k)))
        (remove_object own_key after "z")
    × Returns
        (λ r.
          Inv r.0
          × (r.1 ≡ false)
          × ((k : String) → get_by_key own_key r.0 k ≡ last_with own_key ("a" ∷ "b" ∷ []) k))
        (replace_all own_key after ("a" ∷ "b" ∷ []))
get-write_example =
    get-write own_key after "z" "z" ("a" ∷ "b" ∷ []) after-Inv refl (("a", refl), (("b", refl), tt))
