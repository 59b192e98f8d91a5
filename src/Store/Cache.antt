-- ===== src/Store/Cache.antt =====
-- pkg/informer/store.go: cache, a store that takes the key of each object from a key function. A key
-- function that fails returns `none`, and the flag of a call tells so.
use Prim.Native.String.{String}
use flowline.Base.{
  ◌≡◌, refl, ap, ◌∙◌, Bool, true, false, List, [], ◌∷◌, Option, none, some, if◌then◌else◌, arith,
}
use flowline.Base.Keys.{
  text_key, same, keys, Distinct, lookup, store, lookup-store, keys-store-Distinct,
}
use flowline.Base.Run.{Run, ok, ◌>>=◌, Returns, returns, Returns-bind}
use flowline.Store.{Indexers, ThreadSafeMap, get, new_store, update, delete, replace}
use flowline.Store.Writes.{Inv, update_lem, delete_lem, replace_lem}

module _ {ℓ} {V : Type ℓ} (key_func : V → Option String) where
  -- NewIndexer
  unfoldable pub new_indexer : Indexers V → ThreadSafeMap V
  new_indexer indexers = new_store indexers

  -- Add and Update
  unfoldable pub add : ThreadSafeMap V → V → Run (ThreadSafeMap V × Bool)
  add c obj = elim (key_func obj) [
    | none ↦ ok (c, true)
    | some key ↦ update c key obj >>= λ d. ok (d, false)
  ]

  -- Delete
  unfoldable pub remove_object : ThreadSafeMap V → V → Run (ThreadSafeMap V × Bool)
  remove_object c obj = elim (key_func obj) [
    | none ↦ ok (c, true)
    | some key ↦ delete c key >>= λ d. ok (d, false)
  ]

  -- GetByKey
  unfoldable pub get_by_key : ThreadSafeMap V → String → Option V
  get_by_key c key = get c key

  -- Get; `none` if there is no key.
  unfoldable pub get_object : ThreadSafeMap V → V → Option (Option V)
  get_object c obj = elim (key_func obj) [ none ↦ none | some key ↦ some (get_by_key c key) ]

  -- The loop of Replace.
  unfoldable pub items_of : List V → List (String × V) → Option (List (String × V))
  items_of [] items = some items
  items_of (obj ∷ l) items = elim (key_func obj) [
    | none ↦ none
    | some key ↦ items_of l (store key obj items)
  ]

  -- Replace
  unfoldable pub replace_all : ThreadSafeMap V → List V → Run (ThreadSafeMap V × Bool)
  replace_all c l = elim (items_of l []) [
    | none ↦ ok (c, true)
    | some items ↦ replace c items >>= λ d. ok (d, false)
  ]

  -- The last object of a list with a key.
  abbrev pub last_with : List V → String → Option V
  last_with [] k = none
  last_with (obj ∷ l) k = elim (last_with l k) [
    | some found ↦ some found
    | none ↦ elim (key_func obj) [ none ↦ none | some key ↦ if same key k then some obj else none ]
  ]

  -- Every object of a list has a key.
  abbrev pub Keyed : List V → Type 0
  Keyed [] = Unit {0}
  Keyed (obj ∷ l) = ((key : String) × (key_func obj ≡ some key)) × Keyed l

  -- What the loop makes of a list, over the items it starts with.
  record Collected (l : List V) (items after : List (String × V)) : Type ℓ where
    made : items_of l items ≡ some after
    once : Distinct (keys after)
    last :
        (k : String)
        → lookup k after
          ≡ elim (last_with l k) as (λ x. Option V) [ none ↦ lookup k items | some obj ↦ some obj ]

  items_of-Collected :
      (l : List V) (items : List (String × V))
      → Distinct (keys items)
      → Keyed l
      → (after : List (String × V)) × Collected l items after
  unfolding items_of
  items_of-Collected [] items d keyed = (items, record { made = refl; once = d; last = λ k. refl })
  items_of-Collected (obj ∷ l) items d ((key, there), keyed) =
      let (after, w) =
        items_of-Collected l (store key obj items) (keys-store-Distinct key obj items d) keyed in
      (
        after,
        record {
          made = rw (there, items_of) w.made;
          once = w.once;
          last = λ k. ground (arith, there, w.last k, lookup-store key k obj items);
        },
      )

  -- In a store as every history of calls leaves it: after Add or Update of an object with a key, Get
  -- by its key gives that object, and after Delete it gives none; after Replace by a list in which
  -- every object has a key, it gives for every key the last object of the list with that key. Nothing
  -- else changes, no call reports an error, and the store stays as it should be.
  pub get-write :
      (c : ThreadSafeMap V) (obj : V) (key : String) (l : List V)
      → Inv c
      → key_func obj ≡ some key
      → Keyed l
      → Returns
          (λ r.
            Inv r.0
            × (r.1 ≡ false)
            × ((k : String) → get_by_key r.0 k ≡ (if same key k then some obj else get_by_key c k)))
          (add c obj)
        × Returns
            (λ r.
              Inv r.0
              × (r.1 ≡ false)
              × ((k : String) → get_by_key r.0 k ≡ (if same key k then none else get_by_key c k)))
            (remove_object c obj)
        × Returns
            (λ r. Inv r.0 × (r.1 ≡ false) × ((k : String) → get_by_key r.0 k ≡ last_with l k))
            (replace_all c l)
  unfolding add remove_object replace_all get_by_key get lookup
  get-write c obj key l v there keyed =
      let (items, w) = items_of-Collected l [] tt keyed in
      (
        rw (there, add) (Returns-bind (update_lem c key obj v) (λ d u. returns (u.0, refl, u.1))),
        rw (there, remove_object)
            (Returns-bind (delete_lem c key v) (λ d u. returns (u.0, refl, u.1))),
        rw (w.made, replace_all)
            (Returns-bind (replace_lem c items w.once v)
              (λ d u. returns (u.0, refl, λ k. ap (lookup k) u.1 ∙ w.last k ∙ ground arith))),
      )
