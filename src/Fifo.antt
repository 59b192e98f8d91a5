-- ===== src/Fifo.antt =====
-- pkg/informer/fifo.go: FIFO. Its methods run under its lock and are functions on the state. The
-- key function is the caller's; one that fails returns `none`. What the callback of Pop returns is
-- given per object.
mod Invariant
mod Order
mod Synced
mod Tests
use Prim.Native.String.{String}
use flowline.Base.{
  ℕ, ◌+◌, ◌-◌, Bool, true, false, ◌&&◌, ltb, ◌==◌, length, List, [], ◌∷◌, ◌++◌, map, Option, none,
  some, is_some, if◌then◌else◌,
}
use flowline.Base.Keys.{text_key, has, lookup, store, erase, keys}

-- `broadcasts` counts the calls of cond.Broadcast.
pub record Fifo {ℓ} (V : Type ℓ) : Type ℓ where
  pub items : List (String × V)
  pub queue : List String
  pub populated : Bool
  pub initial_population_count : ℕ
  pub closed : Bool
  pub broadcasts : ℕ

-- What the callback returns: no error, an error, or ErrRequeue with the error in it.
pub data Processed {κ} (E : Type κ) : Type κ where
  fine : Processed E
  failed : E → Processed E
  requeue : Option E → Processed E

-- How an attempt of Pop ends.
pub data PopResult {ℓ κ} (V : Type ℓ) (E : Type κ) : Type (ℓ ⊔ κ) where
  blocked : PopResult V E
  fifo_closed : PopResult V E
  popped : V → Option E → PopResult V E

module _ {ℓ} {V : Type ℓ} where
  -- NewFIFO
  unfoldable pub new_fifo : Fifo V
  new_fifo = record {
    items = [];
    queue = [];
    populated = false;
    initial_population_count = 0;
    closed = false;
    broadcasts = 0;
  }

  -- Close
  unfoldable pub close : Fifo V → Fifo V
  close f = record f { closed = true; broadcasts = f.broadcasts + 1 }

  -- HasSynced
  unfoldable pub has_synced : Fifo V → Bool
  has_synced f = f.populated && f.initial_population_count == 0

  -- The part of Add under the lock.
  unfoldable pub add_by_id : Fifo V → String → V → Fifo V
  add_by_id f id obj = record f {
    populated = true;
    queue = if is_some (lookup id f.items) then f.queue else f.queue ++ id ∷ [];
    items = store id obj f.items;
    broadcasts = f.broadcasts + 1;
  }

  -- addIfNotPresent
  unfoldable pub add_if_not_present_by_id : Fifo V → String → V → Fifo V
  add_if_not_present_by_id f id obj =
      if is_some (lookup id f.items) then record f { populated = true } else record f {
        populated = true;
        queue = f.queue ++ id ∷ [];
        items = store id obj f.items;
        broadcasts = f.broadcasts + 1;
      }

  unfoldable pub delete_by_id : Fifo V → String → Fifo V
  delete_by_id f id = record f { populated = true; items = erase id f.items }

  -- List
  unfoldable pub list : Fifo V → List V
  list f = map (λ e. e.1) f.items

  -- ListKeys
  unfoldable pub list_keys : Fifo V → List String
  list_keys f = keys f.items

  -- GetByKey
  unfoldable pub get_by_key : Fifo V → String → Option V
  get_by_key f key = lookup key f.items

  -- The end of Pop, for an object that was taken out.
  unfoldable pub process_item {κ} :
      {E : Type κ} → Processed E → Fifo V → String → V → Fifo V × PopResult V E
  process_item fine f id item = (f, popped item none)
  process_item (failed e) f id item = (f, popped item (some e))
  process_item (requeue e) f id item = (add_if_not_present_by_id f id item, popped item e)

  unfoldable pub resync_loop : List String → List (String × V) → List String → List String
  resync_loop in_queue [] queue = queue
  resync_loop in_queue ((id, obj) ∷ items) queue =
      resync_loop in_queue items (if has in_queue id then queue else queue ++ id ∷ [])

  -- Resync
  unfoldable pub resync : Fifo V → Fifo V
  resync f =
      let queue = resync_loop f.queue f.items f.queue in
      record f {
        queue = queue;
        broadcasts = f.broadcasts + (if ltb 0 (length queue) then 1 else 0);
      }

  module _ {κ} {E : Type κ} (process : V → Processed E) where
    -- The loop of Pop over the ids in the queue; it skips ids without an object.
    unfoldable pub pop_loop : Fifo V → List String → Fifo V × PopResult V E
    pop_loop f [] = (record f { queue = [] }, if f.closed then fifo_closed else blocked)
    pop_loop f (id ∷ queue) =
        let taken = record f {
          queue = queue;
          initial_population_count = f.initial_population_count - 1;
        } in
        elim (lookup id f.items) [
          | none ↦ pop_loop taken queue
          | some item ↦
              process_item (process item) (record taken { items = erase id f.items }) id item
        ]

    -- Pop
    unfoldable pub pop : Fifo V → Fifo V × PopResult V E
    pop f = pop_loop f f.queue

  module _ (key_func : V → Option String) where
    -- Add and Update; the flag tells whether the key function failed.
    unfoldable pub add : Fifo V → V → Fifo V × Bool
    add f obj = elim (key_func obj) [ none ↦ (f, true) | some id ↦ (add_by_id f id obj, false) ]

    -- AddIfNotPresent
    unfoldable pub add_if_not_present : Fifo V → V → Fifo V × Bool
    add_if_not_present f obj = elim (key_func obj) [
      | none ↦ (f, true)
      | some id ↦ (add_if_not_present_by_id f id obj, false)
    ]

    -- Delete
    unfoldable pub delete : Fifo V → V → Fifo V × Bool
    delete f obj = elim (key_func obj) [ none ↦ (f, true) | some id ↦ (delete_by_id f id, false) ]

    -- The first loop of Replace.
    unfoldable pub collect : List V → List (String × V) → Option (List (String × V))
    collect [] items = some items
    collect (obj ∷ l) items = elim (key_func obj) [
      | none ↦ none
      | some id ↦ collect l (store id obj items)
    ]

    replace_items : Fifo V → List (String × V) → Fifo V
    replace_items f items = record f {
      populated = true;
      initial_population_count = if f.populated then f.initial_population_count else length items;
      items = items;
      queue = keys items;
      broadcasts = f.broadcasts + (if ltb 0 (length items) then 1 else 0);
    }

    -- Replace
    unfoldable pub replace : Fifo V → List V → Fifo V × Bool
    unfolding replace_items
    replace f l = elim (collect l []) [
      | none ↦ (f, true)
      | some items ↦ (replace_items f items, false)
    ]
