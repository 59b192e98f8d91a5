-- ===== src/Store/Histories.antt =====
-- What every history of calls of a store keeps.
use Prim.Native.String.{String}
use flowline.Base.{
  ◌≡◌, refl, sym, subst, ◌∙◌, true, false, ltb, All, length, List, [], ◌∷◌, Option, none, some,
  arith, Bool-cases, inl, inr,
}
use flowline.Base.Keys.{text_key, same, keys, Distinct, lookup, store, keys-store-Distinct}
use flowline.Base.Run.{Run, ok, ◌>>=◌, Returns, returns, Returns-bind, Returns-weaken}
use flowline.Store.{
  IndexFunc, Indices, Indexers, ThreadSafeMap, new_store, update, delete, replace, conflicts,
  store_all, add_indexers,
}
use flowline.Store.Invariant.{Total, indexed, Agree, empty-Agree}
use flowline.Store.Writes.{Inv, update_lem, delete_lem, replace_lem}

-- A call of a method that changes the store.
pub data Call {ℓ} (V : Type ℓ) : Type ℓ where
  call_update : String → V → Call V
  call_delete : String → Call V
  call_replace : List (String × V) → Call V
  call_add_indexers : Indexers V → Call V

module _ {ℓ} {V : Type ℓ} where
  store-All :
      (name : String) (f : IndexFunc V) (l : Indexers V)
      → Total (name, f)
      → All Total l
      → All Total (store name f l)
  unfolding store
  store-All name f [] t all = (t, tt)
  store-All name f ((n, g) ∷ l) t (first, rest) = elim (Bool-cases (same n name)) [
    | inl here ↦ rw here (t, rest)
    | inr away ↦ rw away (first, store-All name f l t rest)
  ]

  store_all-Distinct : (new l : Indexers V) → Distinct (keys l) → Distinct (keys (store_all new l))
  unfolding store_all
  store_all-Distinct [] l d = d
  store_all-Distinct ((name, f) ∷ new) l d =
      store_all-Distinct new (store name f l) (keys-store-Distinct name f l d)

  store_all-All : (new l : Indexers V) → All Total new → All Total l → All Total (store_all new l)
  unfolding store_all
  store_all-All [] l t all = all
  store_all-All ((name, f) ∷ new) l (first, rest) all =
      store_all-All new (store name f l) rest (store-All name f l first all)

  indexed_nil : (o : Option (IndexFunc V)) (value : String) → indexed o none value ≡ false
  indexed_nil none value = refl
  indexed_nil (some f) value = refl

  -- Without objects, the indices hold nothing, whatever the indexers are.
  without_objects-Agree :
      (indexers other : Indexers V) (indices : Indices)
      → Agree indexers (λ k. none) indices
      → Agree other (λ k. none) indices
  without_objects-Agree indexers other indices w = record {
    agrees = λ name value k.
        w.agrees name value k
        ∙ indexed_nil (lookup name indexers) value
        ∙ sym (indexed_nil (lookup name other) value);
    sound = w.sound;
  }

  add_indexers-Inv :
      (c : ThreadSafeMap V) (new : Indexers V) (items : List (String × V))
      → c.items ≡ items
      → All Total new
      → Inv c
      → Inv (add_indexers c new).0
  unfolding add_indexers lookup
  add_indexers-Inv c new (x ∷ items) e t v =
      let running : ltb 0 (length c.items) ≡ true = rw e (ground arith) in
      rw (running, add_indexers) v
  add_indexers-Inv c new [] e t v =
      let idle : ltb 0 (length c.items) ≡ false = rw e (ground arith) in
      let left = subst (λ l. Agree c.indexers (λ k. lookup k l) c.indices) e v.agree in
      elim (Bool-cases (conflicts c.indexers new)) [
        | inl clash ↦ rw (idle, clash, add_indexers) v
        | inr apart ↦
            rw (idle, apart, add_indexers)
              (record {
                items_once = v.items_once;
                indexers_once = store_all-Distinct new c.indexers v.indexers_once;
                total = store_all-All new c.indexers t v.total;
                agree =
                    subst (λ l. Agree (store_all new c.indexers) (λ k. lookup k l) c.indices)
                      (sym e)
                      (without_objects-Agree c.indexers (store_all new c.indexers) c.indices left);
              })
      ]

  -- The items of a Replace are a map, and no index function fails.
  abbrev pub ProperCall : Call V → Type ℓ
  ProperCall (call_update key obj) = Unit
  ProperCall (call_delete key) = Unit
  ProperCall (call_replace items) = Distinct (keys items) × Unit {ℓ}
  ProperCall (call_add_indexers new) = All Total new

  unfoldable pub run_call : ThreadSafeMap V → Call V → Run (ThreadSafeMap V)
  run_call c (call_update key obj) = update c key obj
  run_call c (call_delete key) = delete c key
  run_call c (call_replace items) = replace c items
  run_call c (call_add_indexers new) = ok (add_indexers c new).0

  unfoldable pub run_calls : ThreadSafeMap V → List (Call V) → Run (ThreadSafeMap V)
  run_calls c [] = ok c
  run_calls c (call ∷ calls) = run_call c call >>= λ d. run_calls d calls

  run_call-Inv :
      (c : ThreadSafeMap V) (call : Call V)
      → ProperCall call
      → Inv c
      → Returns Inv (run_call c call)
  unfolding run_call
  run_call-Inv c (call_update key obj) p v = Returns-weaken (update_lem c key obj v) (λ d w. w.0)
  run_call-Inv c (call_delete key) p v = Returns-weaken (delete_lem c key v) (λ d w. w.0)
  run_call-Inv c (call_replace items) p v = Returns-weaken (replace_lem c items p.0 v) (λ d w. w.0)
  run_call-Inv c (call_add_indexers new) p v = returns (add_indexers-Inv c new c.items refl p v)

  run_calls-Inv :
      (c : ThreadSafeMap V) (calls : List (Call V))
      → All ProperCall calls
      → Inv c
      → Returns Inv (run_calls c calls)
  unfolding run_calls
  run_calls-Inv c [] p v = returns v
  run_calls-Inv c (call ∷ calls) (first, later) v =
      Returns-bind (run_call-Inv c call first v) (λ d w. run_calls-Inv d calls later w)

  -- Any history of calls of a new store returns, if no index function fails, the first indexers have
  -- different names and each Replace gets a map. Then the indices hold each key exactly under the
  -- values that the index functions give its object; they keep no empty set, and no key twice.
  pub store_histories-Inv :
      (indexers : Indexers V) (calls : List (Call V))
      → Distinct (keys indexers)
      → All Total indexers
      → All ProperCall calls
      → Returns Inv (run_calls (new_store indexers) calls)
  unfolding new_store lookup
  store_histories-Inv indexers calls once total p =
      run_calls-Inv (new_store indexers) calls p (record {
        items_once = tt;
        indexers_once = once;
        total = total;
        agree = empty-Agree indexers;
      })
