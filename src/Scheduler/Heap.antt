-- ===== src/Scheduler/Heap.antt =====
-- pkg/scheduler/heap/heap.go: a heap of objects with a map from their keys. The key function and
-- the order are the caller's, and enter as arguments; a key function that fails returns `none`.
-- An index out of range and a nil pointer panic.
pub mod Invariant
pub mod Valid
pub mod Add
pub mod Remove
mod Tests
use Prim.Native.String.{String}
use flowline.Base.{
  ℕ, ◌-◌, Bool, true, false, ◌||◌, ltb, ◌==◌, if◌then◌else◌, Option, none, some, List, [], ◌∷◌,
  ◌++◌, map, length, get_elem?, set, take,
}
use flowline.Base.Keys.{text_key, lookup, store, erase}
use flowline.Base.Run.{Run, ok, panic, ◌>>=◌}
use flowline.GoHeap.{Interface, heap_push, heap_pop, heap_remove, heap_fix}

pub record Item {ℓ} (V : Type ℓ) : Type ℓ where
  pub obj : V
  pub index : ℕ

pub record HeapData {ℓ} (V : Type ℓ) : Type ℓ where
  pub items : List (String × Item V)
  pub queue : List String

pub data Error : Type 0 where
  key_error object_not_found object_was_removed : Error

-- `a[i]` and a dereferenced pointer.
abbrev pub or_panic {ℓ} : {A : Type ℓ} → Option A → Run A
or_panic none = panic
or_panic (some a) = ok a

module _ {ℓ} {V : Type ℓ} where
  -- `h.items[key].index = i`
  unfoldable pub put_index : String → ℕ → List (String × Item V) → Run (List (String × Item V))
  put_index k i items = do
    it ← or_panic (lookup k items)
    ok (store k (record it { index = i }) items)

  -- Swap
  unfoldable pub swap : HeapData V → ℕ → ℕ → Run (HeapData V)
  swap d i j = do
    b ← or_panic (get_elem? d.queue j)
    a ← or_panic (get_elem? d.queue i)
    first ← put_index b i d.items
    both ← put_index a j first
    ok (record { items = both; queue = set (set d.queue i b) j a })

  -- Push
  unfoldable pub push : HeapData V → String × V → Run (HeapData V)
  push d (k, obj) = ok (record {
    items = store k (record { obj = obj; index = length d.queue }) d.items;
    queue = d.queue ++ k ∷ [];
  })

  -- Pop
  unfoldable pub pop : HeapData V → Run (HeapData V × Option V)
  pop d = do
    k ← or_panic (get_elem? d.queue (length d.queue - 1))
    let queue = take (length d.queue - 1) d.queue
    elim (lookup k d.items) [
      | none ↦ ok (record d { queue = queue }, none)
      | some it ↦ ok (record { items = erase k d.items; queue = queue }, some it.obj)
    ]

  -- Peek
  unfoldable pub peek : HeapData V → Run (Option V)
  peek d =
      if ltb 0 (length d.queue)
      then (do
        k ← or_panic (get_elem? d.queue 0)
        it ← or_panic (lookup k d.items)
        ok (some it.obj))
      else ok none

  unfoldable pub get_by_key : HeapData V → String → Option V
  get_by_key d k = elim (lookup k d.items) [ none ↦ none | some it ↦ some it.obj ]

  unfoldable pub list : HeapData V → List V
  list d = map (λ e. e.1.obj) d.items

  abbrev pub len : HeapData V → ℕ
  len d = length d.queue

  -- NewWithRecorder
  unfoldable pub new : HeapData V
  new = record { items = []; queue = [] }

  module _ (less_func : V → V → Bool) where
    -- Less
    unfoldable pub less : HeapData V → ℕ → ℕ → Run Bool
    less d i j = if ltb (length d.queue) i || ltb (length d.queue) j then ok false else do
      a ← or_panic (get_elem? d.queue i)
      elim (lookup a d.items) [
        | none ↦ ok false
        | some x ↦
            (or_panic (get_elem? d.queue j) >>= λ b. elim (lookup b d.items) [
              | none ↦ ok false
              | some y ↦ ok (less_func x.obj y.obj)
            ])
      ]

    -- `data` as an implementation of heap.Interface.
    abbrev pub heap_interface : Interface (HeapData V) (String × V) (Option V)
    heap_interface = record { len = len; less = less; swap = swap; push = push; pop = pop }

    module _ (key_func : V → Option String) where
      -- Add, and Update, which calls it.
      unfoldable pub add : HeapData V → V → Run (HeapData V × Option Error)
      add d obj = elim (key_func obj) [
        | none ↦ ok (d, some key_error)
        | some k ↦ elim (lookup k d.items) [
          | some it ↦ (do
            let changed = record d { items = store k (record it { obj = obj }) d.items }
            fixed ← heap_fix heap_interface changed it.index
            ok (fixed, none))
          | none ↦ (do pushed ← heap_push heap_interface d (k, obj); ok (pushed, none))
        ]
      ]

      -- Delete
      unfoldable pub delete : HeapData V → V → Run (HeapData V × Option Error)
      delete d obj = elim (key_func obj) [
        | none ↦ ok (d, some key_error)
        | some k ↦ elim (lookup k d.items) [
          | some it ↦ (do (rest, _) ← heap_remove heap_interface d it.index; ok (rest, none))
          | none ↦ ok (d, some object_not_found)
        ]
      ]

      -- Get
      unfoldable pub get : HeapData V → V → Option V × Option Error
      get d obj = elim (key_func obj) [
        | none ↦ (none, some key_error)
        | some k ↦ (get_by_key d k, none)
      ]

    -- Pop of the Heap.
    unfoldable pub pop_head : HeapData V → Run (HeapData V × Option V × Option Error)
    pop_head d = do
      (rest, obj) ← heap_pop heap_interface d
      elim obj [
        | some x ↦ ok (rest, some x, none)
        | none ↦ ok (rest, none, some object_was_removed)
      ]
