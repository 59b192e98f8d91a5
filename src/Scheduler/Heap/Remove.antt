-- ===== src/Scheduler/Heap/Remove.antt =====
-- Delete and Pop against a map from keys to objects.
use Prim.Native.String.{String}
use flowline.Base.{
  ℕ, ◌-◌, ◌+◌, ◌<◌, ◌≡◌, ◌∙◌, sym, refl, Bool, false, if◌then◌else◌, Option, none, some, length,
  get_elem?, take, arith, get_elem?-some, get_elem?-lt, get_elem?-take, length-take, Option-cases,
  is_some, inl, inr,
}
use flowline.Base.Keys.{text_key, same, lookup, erase, lookup-erase, keys-erase-Distinct}
use flowline.Base.Run.{ok, Returns, returns, Returns-weaken}
use flowline.GoHeap.{parent}
use flowline.GoHeap.Laws.{root_least}
use flowline.GoHeap.Calls.{Ready, heap_pop-Ready, heap_remove-Ready}
use flowline.Scheduler.Heap.{
  Item, HeapData, peek, object_not_found, get_by_key, len, pop, heap_interface, delete, pop_head,
}
use flowline.Scheduler.Heap.Invariant.{Inv, entry, IsOrder, heap_view, located_item}
use flowline.Scheduler.Heap.Valid.{Valid}

module _ {ℓ} {V : Type ℓ} where
  -- Pop of the implementation takes the last object out of the map and the queue.
  record Popped (d : HeapData V) (k : String) (x : V) (e : HeapData V) : Type ℓ where
    last : get_elem? d.queue (length d.queue - 1) ≡ some k
    found : get_by_key d k ≡ some x
    ran : pop d ≡ ok (e, some x)
    inv : Inv e
    size : length e.queue ≡ length d.queue - 1
    others : (j : String) → get_by_key e j ≡ (if same k j then none else get_by_key d j)
    kept : (c : ℕ) → c < length e.queue → entry e c ≡ entry d c

  pop_state : HeapData V → String → HeapData V
  pop_state d k = record { items = erase k d.items; queue = take (length d.queue - 1) d.queue }

  pop_last :
      (d : HeapData V)
      → Inv d
      → 0 < length d.queue
      → (k : String) × (x : V) × Popped d k x (pop_state d k)
  unfolding pop pop_state get_by_key
  pop_last d v p =
      let (k, it, at, found, here) = located_item d (length d.queue - 1) v (omega arith) in
      let size : length (take (length d.queue - 1) d.queue) ≡ length d.queue - 1 =
        omega (arith, length-take (length d.queue - 1) d.queue) in
      let others : (j : String)
          → get_by_key (pop_state d k) j ≡ (if same k j then none else get_by_key d j) =
        λ j. ground (arith, lookup-erase k j d.items) in
      (
        k,
        it.obj,
        record {
          last = at;
          found = ground arith;
          ran = ground arith;
          inv = record {
            keys_once = keys-erase-Distinct k d.items v.keys_once;
            located = λ c j e. ground (
              arith,
              get_elem?-take (length d.queue - 1) d.queue c,
              lookup-erase k j d.items,
              v.located c j,
              v.located (length d.queue - 1) k at,
            );
            listed = λ j c e. ground (
              arith,
              get_elem?-take (length d.queue - 1) d.queue c,
              lookup-erase k j d.items,
              v.listed j c,
              at,
              get_elem?-lt d.queue c j,
            );
          };
          size = size;
          others = others;
          kept = λ c q.
              let (j, here) = get_elem?-some d.queue c (omega arith) in
              ground (
                arith,
                get_elem?-take (length d.queue - 1) d.queue c,
                others j,
                v.located c j here,
                v.located (length d.queue - 1) k at,
              );
        },
      )

  module _ (less_func : V → V → Bool) (key_func : V → Option String)
      (order : IsOrder less_func) where
    -- The state of a heap from which the object `x` with the key `k` was taken.
    pub record Removed (d : HeapData V) (k : String) (x : V) (e : HeapData V) : Type ℓ where
      pub valid : Valid less_func key_func order e
      pub held : get_by_key d k ≡ some x
      pub contents : (j : String) → get_by_key e j ≡ (if same k j then none else get_by_key d j)
      pub size : len e + 1 ≡ len d

    pub Removed-value :
        (d e : HeapData V) (k : String) (x y : V)
        → get_by_key d k ≡ some y
        → Removed d k x e
        → Removed d k y e
    Removed-value d e k x y held w = record {
      valid = w.valid;
      held = held;
      contents = w.contents;
      size = w.size;
    }

    module _ (d u e : HeapData V) (i : ℕ) (k k' : String) (x : V)
        (v : Valid less_func key_func order d) (at : get_elem? d.queue i ≡ some k)
        (r : Ready (heap_interface less_func) (heap_view less_func order) d i u)
        (p : Popped u k' x e) where
      popped_object : get_by_key d k ≡ some x
      popped_object = ground (arith, r.size, r.taken, at, p.last, p.found)

      popped_key : k' ≡ k
      popped_key = cc (v.keyed k x popped_object, v.keyed k' x (sym (r.same k') ∙ p.found))

      popped-Removed : Removed d k x e
      popped-Removed = record {
        valid = record {
          inv = p.inv;
          heap = λ c q b.
              let hc : c < length e.queue = b in
              rw (p.kept c hc, p.kept (parent c) (omega arith))
                (r.heap c q (omega (arith, p.size, r.size)));
          keyed = λ j y h. ground (arith, p.others j, r.same j, v.keyed j y);
        };
        held = popped_object;
        contents = λ j. p.others j ∙ rw (popped_key, r.same j);
        size = omega (arith, p.size, r.size, get_elem?-lt d.queue i k at);
      }

    -- What container/heap hands to Pop of the implementation is popped into a valid heap.
    pop-Ready :
        (d u : HeapData V) (i : ℕ) (k : String)
        → Valid less_func key_func order d
        → get_elem? d.queue i ≡ some k
        → Ready (heap_interface less_func) (heap_view less_func order) d i u
        → (x : V) × (e : HeapData V) × (pop u ≡ ok (e, some x)) × Removed d k x e
    pop-Ready d u i k v at r =
        let (k', x, p) = pop_last u r.valid (omega (arith, r.size, get_elem?-lt d.queue i k at)) in
        (x, pop_state u k', p.ran, popped-Removed d u _ i k k' x v at r p)

    pub stored_item :
        (d : HeapData V) (k : String) (y : V)
        → get_by_key d k ≡ some y
        → (it : Item V) × (lookup k d.items ≡ some it) × (it.obj ≡ y)
    unfolding get_by_key
    stored_item d k y e = elim (Option-cases (lookup k d.items)) [
      | inl missing ↦ absurd (ground arith)
      | inr (it, found) ↦ (it, found, ground arith)
    ]

    -- Delete of an object whose key is stored takes out what is stored under the key and keeps the
    -- heap; it neither fails nor panics.
    pub delete_correct :
        (d : HeapData V) (x : V) (k : String) (y : V)
        → Valid less_func key_func order d
        → key_func x ≡ some k
        → get_by_key d k ≡ some y
        → Returns (λ (e, err). (err ≡ none) × Removed d k y e) (delete less_func key_func d x)
    unfolding delete
    delete_correct d x k y v has_key held =
        let (it, found, same_obj) = stored_item d k y held in
        let here : get_elem? d.queue it.index ≡ some k = v.inv.listed k it.index (ground arith) in
        let (u, ran, ready) =
          heap_remove-Ready (heap_interface less_func) (heap_view less_func order) d it.index v.inv
            v.heap (get_elem?-lt d.queue it.index k here) in
        let (x', e, popped, w) = pop-Ready d u it.index k v here ready in
        rw (has_key, found, ran, popped, delete) (returns (refl, Removed-value d e k x' y held w))

    pub least_at :
        (d : HeapData V) (k j : String) (x y : V)
        → Valid less_func key_func order d
        → get_elem? d.queue 0 ≡ some k
        → get_by_key d k ≡ some x
        → get_by_key d j ≡ some y
        → less_func y x ≡ false
    unfolding get_by_key
    least_at d k j x y v at first held =
        let (it, found, same_obj) = stored_item d j y held in
        let here : get_elem? d.queue it.index ≡ some j = v.inv.listed j it.index (ground arith) in
        let root =
          root_least (heap_view less_func order) d (len d) it.index v.heap
            (get_elem?-lt d.queue it.index j here) in
        ground (arith, root)

    -- Pop of a heap that is not empty takes out the first object of the queue, and no stored object
    -- comes before that.
    pub pop_first :
        (d : HeapData V) (k : String)
        → Valid less_func key_func order d
        → get_elem? d.queue 0 ≡ some k
        → Returns
            (λ (e, obj, err).
              (err ≡ none)
              × ((x : V) × (obj ≡ some x)
                  × Removed d k x e
                  × ((j : String) (y : V) → get_by_key d j ≡ some y → less_func y x ≡ false)))
            (pop_head less_func d)
    unfolding pop_head
    pop_first d k v at =
        let (u, ran, ready) =
          heap_pop-Ready (heap_interface less_func) (heap_view less_func order) d v.inv v.heap
            (get_elem?-lt d.queue 0 k at) in
        let (x, e, popped, w) = pop-Ready d u 0 k v at ready in
        rw (ran, popped)
          (returns (refl, (x, refl, w, λ j y held. least_at d k j x y v at w.held held)))

    -- Peek shows the object that Pop takes out.
    pub peek_first :
        (d : HeapData V) (k : String)
        → Valid less_func key_func order d
        → get_elem? d.queue 0 ≡ some k
        → (x : V) × (peek d ≡ ok (some x)) × (get_by_key d k ≡ some x)
    unfolding peek get_by_key
    peek_first d k v at = elim (Option-cases (lookup k d.items)) [
      | inl missing ↦ absurd (ground (arith, v.inv.located 0 k at))
      | inr (it, found) ↦ (it.obj, ground (arith, get_elem?-lt d.queue 0 k at), ground arith)
    ]

    -- Pop of a heap that is not empty takes out an object that no stored object comes before.
    pub pop_head_correct :
        (d : HeapData V)
        → Valid less_func key_func order d
        → 0 < len d
        → Returns
            (λ (e, obj, err).
              (err ≡ none)
              × ((k : String) × (x : V) × (obj ≡ some x)
                  × Removed d k x e
                  × ((j : String) (y : V) → get_by_key d j ≡ some y → less_func y x ≡ false)))
            (pop_head less_func d)
    pop_head_correct d v p =
        let (k, at) = get_elem?-some d.queue 0 p in
        Returns-weaken (pop_first d k v at)
          λ (e, obj, err) (fine, (x, same_obj, w, least)). (fine, (k, x, same_obj, w, least))

    -- Delete takes what is stored under the key of the object out of the heap, if anything is; it
    -- reports the object as not found exactly if nothing is, and then changes nothing.
    pub delete_total :
        (d : HeapData V) (x : V) (k : String)
        → Valid less_func key_func order d
        → key_func x ≡ some k
        → Returns
            (λ (e, err).
              Valid less_func key_func order e
              × ((j : String) → get_by_key e j ≡ (if same k j then none else get_by_key d j))
              × (err ≡ (if is_some (get_by_key d k) then none else some object_not_found)))
            (delete less_func key_func d x)
    unfolding delete get_by_key
    delete_total d x k v has_key = elim (Option-cases (lookup k d.items)) [
      | inl missing ↦ rw (has_key, missing, delete) (returns (v, λ j. ground arith, ground arith))
      | inr (it, found) ↦
          Returns-weaken (delete_correct d x k it.obj v has_key (ground arith))
            λ (e, err) (fine, w). (w.valid, w.contents, ground arith)
    ]
