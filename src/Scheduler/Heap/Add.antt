-- ===== src/Scheduler/Heap/Add.antt =====
-- Add against a map from keys to objects.
use Prim.Native.String.{String}
use flowline.Base.{
  ℕ, ◌-◌, ◌≡◌, ◌∙◌, sym, refl, Bool, if◌then◌else◌, Option, none, some, [], ◌∷◌, ◌++◌, length,
  get_elem?, arith, get_elem?-singleton, get_elem?-lt, get_elem?-append, length-append,
  Option-cases, inl, inr,
}
use flowline.Base.Keys.{text_key, same, lookup, store, lookup-store, keys-store-Distinct}
use flowline.Base.Run.{Returns, returns, Returns-bind}
use flowline.GoHeap.Laws.{Sifted}
use flowline.GoHeap.Calls.{heap_push_restores, heap_fix_restores}
use flowline.Scheduler.Heap.{Item, HeapData, Error, get_by_key, len, push, heap_interface, add}
use flowline.Scheduler.Heap.Invariant.{index_of, IsOrder, heap_view}
use flowline.Scheduler.Heap.Valid.{Valid}

module _ {ℓ} {V : Type ℓ} where
  module _ (less_func : V → V → Bool) (key_func : V → Option String)
      (order : IsOrder less_func) where
    -- What Add promises for the object `x` with the key `k`.
    pub record Added (d : HeapData V) (k : String) (x : V) (r : HeapData V × Option Error)
        : Type ℓ where
      pub valid : Valid less_func key_func order r.0
      pub no_error : r.1 ≡ none
      pub contents : (j : String) → get_by_key r.0 j ≡ (if same k j then some x else get_by_key d j)

    Added-of :
        (d t e : HeapData V) (k : String) (x : V)
        → ((j : String) → get_by_key t j ≡ (if same k j then some x else get_by_key d j))
        → Valid less_func key_func order d
        → key_func x ≡ some k
        → Sifted (heap_view less_func order) t (len t) e
        → Added d k x (e, none)
    Added-of d t e k x put v has_key w = record {
      valid = record {
        inv = w.valid;
        heap = λ c p q. w.heap c p (omega (arith, w.size));
        keyed = λ j y h. ground (arith, w.same j, put j, v.keyed j y);
      };
      no_error = refl;
      contents = λ j. w.same j ∙ put j;
    }

    change_state : HeapData V → String → V → Item V → HeapData V
    change_state d k x it = record d { items = store k (record it { obj = x }) d.items }

    add_known :
        (d : HeapData V) (x : V) (k : String) (it : Item V)
        → Valid less_func key_func order d
        → key_func x ≡ some k
        → lookup k d.items ≡ some it
        → Returns (Added d k x) (add less_func key_func d x)
    unfolding add change_state get_by_key
    add_known d x k it v has_key found =
        let t = change_state d k x it in
        let put : (j : String) → get_by_key t j ≡ (if same k j then some x else get_by_key d j) =
          λ j. ground (arith, lookup-store k j (record it { obj = x }) d.items) in
        let here : get_elem? d.queue it.index ≡ some k = v.inv.listed k it.index (ground arith) in
        let same_index : (j : String) → index_of t j ≡ index_of d j =
          λ j. ground (arith, lookup-store k j (record it { obj = x }) d.items) in
        rw (has_key, found, add)
          (Returns-bind
            (heap_fix_restores (heap_interface less_func) (heap_view less_func order) d t it.index
              (get_elem?-lt d.queue it.index k here) refl
              (record {
                keys_once = keys-store-Distinct k (record it { obj = x }) d.items v.inv.keys_once;
                located = λ i j e. same_index j ∙ v.inv.located i j e;
                listed = λ j i e. v.inv.listed j i (sym (same_index j) ∙ e);
              })
              (λ c apart. elim (Option-cases (get_elem? d.queue c)) [
                | inl e ↦ ground arith
                | inr (j, e) ↦ ground (arith, put j, v.inv.located c j e)
              ])
              v.heap)
            λ e w. returns (Added-of d t e k x put v has_key w))

    push_state : HeapData V → String → V → HeapData V
    push_state d k x = record {
      items = store k (record { obj = x; index = length d.queue }) d.items;
      queue = d.queue ++ k ∷ [];
    }

    add_unknown :
        (d : HeapData V) (x : V) (k : String)
        → Valid less_func key_func order d
        → key_func x ≡ some k
        → lookup k d.items ≡ none
        → Returns (Added d k x) (add less_func key_func d x)
    unfolding add push push_state get_by_key
    add_unknown d x k v has_key missing =
        let t = push_state d k x in
        let n = length d.queue in
        let put : (j : String) → get_by_key t j ≡ (if same k j then some x else get_by_key d j) =
          λ j. ground (arith, lookup-store k j (record { obj = x; index = n }) d.items) in
        let at : (j : String) → index_of t j ≡ (if same k j then some n else index_of d j) =
          λ j. ground (arith, lookup-store k j (record { obj = x; index = n }) d.items) in
        let size = length-append d.queue (k ∷ []) in
        let there = λ (c : ℕ). get_elem?-append d.queue (k ∷ []) c in
        let only = λ (c : ℕ). get_elem?-singleton k c in
        let absent : index_of d k ≡ none = ground arith in
        rw (has_key, missing, add)
          (Returns-bind
            (heap_push_restores (heap_interface less_func) (heap_view less_func order) d t (k, x)
              refl
              (record {
                keys_once =
                    keys-store-Distinct k (record { obj = x; index = n }) d.items v.inv.keys_once;
                located = λ c j e.
                    at j ∙ ground (arith, e, there c, only (c - n), v.inv.located c j, absent);
                listed = λ j c e.
                    let e' = sym (at j) ∙ e in
                    ground (
                      arith,
                      e',
                      there c,
                      only (c - n),
                      v.inv.listed j c,
                      get_elem?-lt d.queue c j,
                    );
              })
              (omega (arith, size))
              (λ c p. elim (Option-cases (get_elem? d.queue c)) [
                | inl e ↦ ground (arith, there c)
                | inr (j, e) ↦ ground (arith, there c, put j, v.inv.located c j e, absent)
              ])
              v.heap)
            λ e w. returns (Added-of d t e k x put v has_key w))

    -- Add stores the object under its key, in the place of an earlier one, and keeps the heap; it
    -- neither fails nor panics.
    pub add_correct :
        (d : HeapData V) (x : V) (k : String)
        → Valid less_func key_func order d
        → key_func x ≡ some k
        → Returns (Added d k x) (add less_func key_func d x)
    add_correct d x k v has_key = elim (Option-cases (lookup k d.items)) [
      | inl missing ↦ add_unknown d x k v has_key missing
      | inr (it, found) ↦ add_known d x k it v has_key found
    ]
