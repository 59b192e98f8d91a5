-- ===== src/Scheduler/Heap/Invariant.antt =====
-- The map and the queue of a heap agree, and its swap keeps that: the heap as container/heap sees it.
use Prim.Native.String.{String}
use flowline.Base.{
  Option-cases, inl, inr, ℕ, ◌<◌, ◌≡◌, ◌∙◌, refl, Bool, true, false, ◌==◌, if◌then◌else◌, Option,
  none, some, length, get_elem?, set, arith, get_elem?-some, get_elem?-lt, get_elem?-set,
  length-set,
}
use flowline.Base.Keys.{
  text_key, same, lookup, store, lookup-store, keys, Distinct, keys-store-Distinct,
}
use flowline.Base.Run.{ok}
use flowline.GoHeap.Laws.{View}
use flowline.Scheduler.Heap.{Item, HeapData, get_by_key, put_index, swap, less, heap_interface}

module _ {ℓ} {V : Type ℓ} where
  abbrev pub index_of : HeapData V → String → Option ℕ
  index_of d k = elim (lookup k d.items) [ none ↦ none | some it ↦ some it.index ]

  -- The items in the map are those in the queue, each with its index there.
  pub record Inv (d : HeapData V) : Type ℓ where
    pub keys_once : Distinct (keys d.items)
    pub located : (i : ℕ) (k : String) → get_elem? d.queue i ≡ some k → index_of d k ≡ some i
    pub listed : (k : String) (i : ℕ) → index_of d k ≡ some i → get_elem? d.queue i ≡ some k

  -- The same objects under the same keys.
  abbrev pub Same : HeapData V → HeapData V → Type ℓ
  Same d e = (k : String) → get_by_key e k ≡ get_by_key d k

  -- The object at an index of the queue.
  abbrev pub entry : HeapData V → ℕ → Option V
  entry d c = elim (get_elem? d.queue c) [ none ↦ none | some k ↦ get_by_key d k ]

  located-get :
      (d : HeapData V) (k : String) (i : ℕ)
      → index_of d k ≡ some i
      → (it : Item V) × (lookup k d.items ≡ some it) × (it.index ≡ i)
  located-get d k i e = elim (Option-cases (lookup k d.items)) [
    | inl absent ↦ absurd (ground arith)
    | inr (it, found) ↦ (it, found, ground arith)
  ]

  swap_state : HeapData V → ℕ → ℕ → String → String → Item V → Item V → HeapData V
  swap_state d i j a b x y = record {
    items =
        store a (record (if same a b then (record y { index = i }) else x) { index = j })
          (store b (record y { index = i }) d.items);
    queue = set (set d.queue i b) j a;
  }

  module _ (d : HeapData V) (v : Inv d) (i j : ℕ) (a b : String) (x y : Item V)
      (at_i : get_elem? d.queue i ≡ some a) (at_j : get_elem? d.queue j ≡ some b)
      (item_i : lookup a d.items ≡ some x) (item_j : lookup b d.items ≡ some y) where
    swap-ok : swap d i j ≡ ok (swap_state d i j a b x y)
    unfolding swap put_index swap_state
    swap-ok = ground (arith, lookup-store b a (record y { index = i }) d.items)

    queue_after :
        (c : ℕ)
        → get_elem? (swap_state d i j a b x y).queue c
          ≡ (if j == c then some a else if i == c then some b else get_elem? d.queue c)
    unfolding swap_state
    queue_after c =
        let hi = get_elem?-lt d.queue i a at_i in
        let hj = get_elem?-lt d.queue j b at_j in
        ground (
          arith,
          get_elem?-set (set d.queue i b) j c a,
          get_elem?-set d.queue i c b,
          length-set d.queue i b,
        )

    index_after :
        (k : String)
        → index_of (swap_state d i j a b x y) k
          ≡ (if same a k then some j else if same b k then some i else index_of d k)
    unfolding swap_state
    index_after k = ground (
      arith,
      lookup-store a k (record (if same a b then (record y { index = i }) else x) { index = j })
          (store b (record y { index = i }) d.items),
      lookup-store b k (record y { index = i }) d.items,
    )

    Same-swap : Same d (swap_state d i j a b x y)
    unfolding swap_state get_by_key
    Same-swap k = ground (
      arith,
      lookup-store a k (record (if same a b then (record y { index = i }) else x) { index = j })
          (store b (record y { index = i }) d.items),
      lookup-store b k (record y { index = i }) d.items,
    )

    Inv-swap : Inv (swap_state d i j a b x y)
    unfolding swap_state
    Inv-swap = record {
      keys_once = keys-store-Distinct a _ _ (keys-store-Distinct b _ _ v.keys_once);
      located = λ c k e.
          ground (arith, queue_after c, index_after k, v.located i a, v.located j b, v.located c k);
      listed = λ k c e. ground (
        arith,
        queue_after c,
        index_after k,
        v.located i a at_i,
        v.located j b at_j,
        v.listed k c,
      );
    }

    entry_after :
        (c : ℕ)
        → entry (swap_state d i j a b x y) c
          ≡ (if j == c then entry d i else if i == c then entry d j else entry d c)
    entry_after c = elim (Option-cases (get_elem? d.queue c)) [
      | inl e ↦ ground (arith, queue_after c, Same-swap a, Same-swap b)
      | inr (k, e) ↦ ground (arith, queue_after c, Same-swap a, Same-swap b, Same-swap k)
    ]

  pub located_item :
      (d : HeapData V) (i : ℕ)
      → Inv d
      → i < length d.queue
      → (k : String) × (it : Item V) × (get_elem? d.queue i ≡ some k)
        × (lookup k d.items ≡ some it)
        × (it.index ≡ i)
  located_item d i v p =
      let (k, at) = get_elem?-some d.queue i p in
      let (it, found, here) = located-get d k i (v.located i k at) in (k, it, at, found, here)

  -- What the order of the heap has to satisfy: it is a strict order whose complement is transitive.
  pub record IsOrder (less_func : V → V → Bool) : Type ℓ where
    pub asym : (x y : V) → less_func x y ≡ true → less_func y x ≡ false
    pub trans : (x y z : V) → less_func y x ≡ false → less_func z y ≡ false → less_func z x ≡ false

  module _ (less_func : V → V → Bool) where
    -- The order with a least entry for an index that is out of range.
    abbrev pub before : Option V → Option V → Bool
    before (some x) (some y) = less_func x y
    before none (some y) = true
    before (some x) none = false
    before none none = false

    module _ (order : IsOrder less_func) where
      pub before_asym : (x y : Option V) → before x y ≡ true → before y x ≡ false
      before_asym (some x) (some y) h = order.asym x y h
      before_asym (some x) none h = cc
      before_asym none (some y) h = refl
      before_asym none none h = cc

      pub before_trans :
          (x y z : Option V) → before y x ≡ false → before z y ≡ false → before z x ≡ false
      before_trans (some x) (some y) (some z) p q = order.trans x y z p q
      before_trans (some x) none z p q = cc
      before_trans (some x) (some y) none p q = cc
      before_trans none y (some z) p q = refl
      before_trans none y none p q = refl

      pub less_lem :
          (d : HeapData V) (i j : ℕ)
          → Inv d
          → i < length d.queue
          → j < length d.queue
          → less less_func d i j ≡ ok (before (entry d i) (entry d j))
      unfolding less get_by_key
      less_lem d i j v p q =
          let (a, x, at_i, item_i, here_i) = located_item d i v p in
          let (b, y, at_j, item_j, here_j) = located_item d j v q in ground arith

      pub swap_lem :
          (d : HeapData V) (i j : ℕ)
          → Inv d
          → i < length d.queue
          → j < length d.queue
          → (e : HeapData V) × (swap d i j ≡ ok e)
            × Inv e
            × Same d e
            × (length e.queue ≡ length d.queue)
            × ((c : ℕ)
                → entry e c
                  ≡ (if j == c then entry d i else if i == c then entry d j else entry d c))
      unfolding swap_state
      swap_lem d i j v p q =
          let (a, x, at_i, item_i, here_i) = located_item d i v p in
          let (b, y, at_j, item_j, here_j) = located_item d j v q in
          (
            swap_state d i j a b x y,
            swap-ok d v i j a b x y at_i at_j item_i item_j,
            Inv-swap d v i j a b x y at_i at_j item_i item_j,
            Same-swap d v i j a b x y at_i at_j item_i item_j,
            length-set (set d.queue i b) j a ∙ length-set d.queue i b,
            entry_after d v i j a b x y at_i at_j item_i item_j,
          )

      -- The heap meets what container/heap asks of its interface.
      abbrev pub heap_view : View (heap_interface less_func) (Option V)
      heap_view = record {
        entry = entry;
        before = before;
        Valid = Inv;
        Same = Same;
        same_refl = λ d k. refl;
        same_trans = λ p q k. q k ∙ p k;
        before_asym = before_asym;
        before_trans = before_trans;
        less_lem = less_lem;
        swap_lem = swap_lem;
      }
