-- ===== src/Store.antt =====
-- pkg/informer/thread_safe_store.go: threadSafeMap. Its methods run under its lock and are
-- functions on the state. An index function that fails returns `none`; an object is never a nil
-- interface. The order of the results, which Go leaves open, is that of the association lists.
mod Index
mod Invariant
mod Cache
mod Histories
mod Lookups
mod Tests
mod Writes
use Prim.Native.String.{String}
use flowline.Base.{
  Bool, true, false, ◌&&◌, ◌==◌, ltb, length, List, [], ◌∷◌, ◌++◌, map, Option, none, some, is_some,
  if◌then◌else◌,
}
use flowline.Base.Keys.{text_key, same, has, insert, remove, lookup, store, erase, keys}
use flowline.Base.Run.{Run, panic, ok, ◌>>=◌}

abbrev pub IndexFunc {ℓ} : Type ℓ → Type ℓ
IndexFunc V = V → Option (List String)

-- A set of keys per indexed value.
abbrev pub Index : Type 0
Index = List (String × List String)

abbrev pub Indices : Type 0
Indices = List (String × Index)

abbrev pub Indexers {ℓ} : Type ℓ → Type ℓ
Indexers V = List (String × IndexFunc V)

pub record ThreadSafeMap {ℓ} (V : Type ℓ) : Type ℓ where
  pub items : List (String × V)
  pub indexers : Indexers V
  pub indices : Indices

pub data StoreError : Type 0 where
  no_index index_func_failed running_index indexer_conflict : StoreError

-- A value, or an error.
pub data Answer {ℓ} (A : Type ℓ) : Type ℓ where
  failed : StoreError → Answer A
  answer : A → Answer A

abbrev pub or_empty {ℓ} : {A : Type ℓ} → Option (List A) → List A
or_empty none = []
or_empty (some l) = l

-- addKeyToIndex
unfoldable pub add_key_to_index : String → String → Index → Index
add_key_to_index key value index = store value (insert (or_empty (lookup value index)) key) index

-- deleteKeyFromIndex
unfoldable pub delete_key_from_index : String → String → Index → Index
delete_key_from_index key value index = elim (lookup value index) [
  | none ↦ index
  | some keys_of_value ↦
      let rest = remove keys_of_value key in
      if length rest == 0 then erase value index else store value rest index
]

unfoldable pub delete_values : String → List String → Index → Index
delete_values key [] index = index
delete_values key (value ∷ l) index = delete_values key l (delete_key_from_index key value index)

unfoldable pub add_values : String → List String → Index → Index
add_values key [] index = index
add_values key (value ∷ l) index = add_values key l (add_key_to_index key value index)

-- Whether the one value of the object has not changed.
unfoldable pub unchanged : List String → List String → Bool
unchanged (old ∷ []) (new ∷ []) = same new old
unchanged [] l = false
unchanged (a ∷ []) [] = false
unchanged (a ∷ []) (b ∷ c ∷ l) = false
unchanged (a ∷ b ∷ l) m = false

-- One round of the loop of updateIndices.
unfoldable pub update_index : String → List String → List String → Index → Index
update_index key old new index =
    if unchanged old new then index else add_values key new (delete_values key old index)

-- A set, with the elements of another one.
unfoldable pub insert_all : List String → List String → List String
insert_all [] collected = collected
insert_all (key ∷ l) collected = insert_all l (insert collected key)

unfoldable pub union_keys : Index → List String → List String → List String
union_keys index [] collected = collected
union_keys index (value ∷ l) collected =
    union_keys index l (insert_all (or_empty (lookup value index)) collected)

-- The set of keys that Index uses: for one value that of the index, else a union.
unfoldable pub keys_of_values : Index → List String → List String
keys_of_values index [] = []
keys_of_values index (value ∷ []) = or_empty (lookup value index)
keys_of_values index (a ∷ b ∷ l) = union_keys index (a ∷ b ∷ l) []

-- The keys that an index has for a value.
unfoldable pub keys_at : Indices → String → String → List String
keys_at indices name value = or_empty (lookup value (or_empty (lookup name indices)))

module _ {ℓ} {V : Type ℓ} where
  -- The values of an object, none for nil.
  unfoldable pub index_values : IndexFunc V → Option V → Run (List String)
  index_values f none = ok []
  index_values f (some obj) = elim (f obj) [ none ↦ panic | some l ↦ ok l ]

  -- updateIndices
  unfoldable pub update_indices : Indexers V → Option V → Option V → String → Indices → Run Indices
  update_indices [] old new key indices = ok indices
  update_indices ((name, f) ∷ l) old new key indices = index_values f old >>= λ old_values.
      index_values f new >>= λ new_values.
      update_indices l old new key (
        store name (update_index key old_values new_values (or_empty (lookup name indices)))
          indices)

  -- NewThreadSafeStore, without indices.
  unfoldable pub new_store : Indexers V → ThreadSafeMap V
  new_store indexers = record { items = []; indexers = indexers; indices = [] }

  -- Update and Add
  unfoldable pub update : ThreadSafeMap V → String → V → Run (ThreadSafeMap V)
  update c key obj =
      update_indices c.indexers (lookup key c.items) (some obj) key c.indices >>= λ indices.
      ok (record c { items = store key obj c.items; indices = indices })

  -- Delete
  unfoldable pub delete : ThreadSafeMap V → String → Run (ThreadSafeMap V)
  delete c key = elim (lookup key c.items) [
    | none ↦ ok c
    | some obj ↦ update_indices c.indexers (some obj) none key c.indices >>= λ indices.
        ok (record c { items = erase key c.items; indices = indices })
  ]

  -- The loop of Replace.
  unfoldable pub rebuild : Indexers V → List (String × V) → Indices → Run Indices
  rebuild indexers [] indices = ok indices
  rebuild indexers ((key, item) ∷ l) indices =
      update_indices indexers none (some item) key indices >>= λ next. rebuild indexers l next

  -- Replace
  unfoldable pub replace : ThreadSafeMap V → List (String × V) → Run (ThreadSafeMap V)
  replace c items =
      rebuild c.indexers items [] >>= λ indices. ok (record c { items = items; indices = indices })

  -- Get
  unfoldable pub get : ThreadSafeMap V → String → Option V
  get c key = lookup key c.items

  -- List
  unfoldable pub list : ThreadSafeMap V → List V
  list c = map (λ e. e.1) c.items

  -- ListKeys
  unfoldable pub list_keys : ThreadSafeMap V → List String
  list_keys c = keys c.items

  -- The objects of a set of keys; a key without an object gives nil.
  abbrev pub objects : ThreadSafeMap V → List String → List (Option V)
  objects c l = map (λ key. lookup key c.items) l

  -- Index
  unfoldable pub index : ThreadSafeMap V → String → V → Answer (List (Option V))
  index c name obj = elim (lookup name c.indexers) [
    | none ↦ failed no_index
    | some f ↦ elim (f obj) [
      | none ↦ failed index_func_failed
      | some values ↦ answer (objects c (keys_of_values (or_empty (lookup name c.indices)) values))
    ]
  ]

  -- ByIndex
  unfoldable pub by_index : ThreadSafeMap V → String → String → Answer (List (Option V))
  by_index c name value = elim (lookup name c.indexers) [
    | none ↦ failed no_index
    | some f ↦ answer (objects c (keys_at c.indices name value))
  ]

  -- IndexKeys, before it sorts the keys.
  unfoldable pub index_keys : ThreadSafeMap V → String → String → Answer (List String)
  index_keys c name value = elim (lookup name c.indexers) [
    | none ↦ failed no_index
    | some f ↦ answer (keys_at c.indices name value)
  ]

  -- ListIndexFuncValues
  unfoldable pub list_index_func_values : ThreadSafeMap V → String → List String
  list_index_func_values c name = keys (or_empty (lookup name c.indices))

  unfoldable pub conflicts : Indexers V → Indexers V → Bool
  conflicts old [] = false
  conflicts old ((name, f) ∷ l) = if is_some (lookup name old) then true else conflicts old l

  unfoldable pub store_all : Indexers V → Indexers V → Indexers V
  store_all [] indexers = indexers
  store_all ((name, f) ∷ l) indexers = store_all l (store name f indexers)

  -- AddIndexers
  unfoldable pub add_indexers : ThreadSafeMap V → Indexers V → ThreadSafeMap V × Option StoreError
  add_indexers c new =
      if ltb 0 (length c.items)
      then (c, some running_index)
      else (if conflicts c.indexers new
          then (c, some indexer_conflict)
          else (record c { indexers = store_all new c.indexers }, none))
