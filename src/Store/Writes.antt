-- ===== src/Store/Writes.antt =====
-- Update, Delete and Replace keep the indices in step with the items.
use Prim.Native.String.{String}
use flowline.Base.{
  ◌≡◌, refl, ◌∙◌, ap, sym, subst, true, false, All, List, [], ◌∷◌, Option, none, some,
  if◌then◌else◌, arith, Option-cases, Bool-cases, inl, inr,
}
use flowline.Base.Keys.{
  text_key, same, same_eq, has, has-keys, has_apart, keys, Distinct, lookup, store, erase,
  lookup-store, lookup-erase, keys-store-Distinct, keys-erase-Distinct,
}
use flowline.Base.Run.{Returns, returns, Returns-bind, Returns-weaken}
use flowline.Store.{
  Indices, Indexers, ThreadSafeMap, update_indices, update, delete, rebuild, replace,
}
use flowline.Store.Invariant.{Total, Agree, update_indices-Agree, same_objects-Agree, empty-Agree}

module _ {ℓ} {V : Type ℓ} where
  -- The items and the indexers have each key once, no index function fails, and the indices hold
  -- what the index functions say of the items.
  pub record Inv (c : ThreadSafeMap V) : Type ℓ where
    pub items_once : Distinct (keys c.items)
    pub indexers_once : Distinct (keys c.indexers)
    pub total : All Total c.indexers
    pub agree : Agree c.indexers (λ k. lookup k c.items) c.indices

  -- The store is sound again, and the key has another object.
  abbrev pub Written : ThreadSafeMap V → String → Option V → ThreadSafeMap V → Type ℓ
  Written c key new d =
      Inv d × ((k : String) → lookup k d.items ≡ (if same key k then new else lookup k c.items))

  pub update_lem :
      (c : ThreadSafeMap V) (key : String) (obj : V)
      → Inv c
      → Returns (Written c key (some obj)) (update c key obj)
  unfolding update
  update_lem c key obj v =
      Returns-bind
        (update_indices-Agree c.indexers (λ k. lookup k c.items) c.indices key (some obj)
          v.indexers_once v.total v.agree)
        (λ indices w. returns (
          record {
            items_once = keys-store-Distinct key obj c.items v.items_once;
            indexers_once = v.indexers_once;
            total = v.total;
            agree =
                same_objects-Agree c.indexers _ (λ k. lookup k (store key obj c.items)) indices
                  (λ k. sym (lookup-store key k obj c.items)) w;
          },
          λ k. lookup-store key k obj c.items,
        ))

  stays_missing :
      (c : ThreadSafeMap V) (key k : String)
      → lookup key c.items ≡ none
      → lookup k c.items ≡ (if same key k then none else lookup k c.items)
  stays_missing c key k missing = elim (Bool-cases (same key k)) [
    | inl here ↦ rw here (ap (λ j. lookup j c.items) (sym (same_eq key k here)) ∙ missing)
    | inr away ↦ rw away refl
  ]

  erased :
      (c : ThreadSafeMap V) (key : String)
      → Inv c
      → Returns
          (Agree c.indexers (λ k. if same key k then none else lookup k c.items))
          (update_indices c.indexers (lookup key c.items) none key c.indices)
  erased c key v =
      update_indices-Agree c.indexers (λ k. lookup k c.items) c.indices key none v.indexers_once
        v.total v.agree

  pub delete_lem :
      (c : ThreadSafeMap V) (key : String) → Inv c → Returns (Written c key none) (delete c key)
  unfolding delete
  delete_lem c key v = elim (Option-cases (lookup key c.items)) [
    | inl missing ↦ rw (missing, delete) (returns (v, λ k. stays_missing c key k missing))
    | inr (obj, there) ↦
        rw (there, delete)
          (Returns-bind
            (subst
              (λ o.
                Returns (Agree c.indexers (λ k. if same key k then none else lookup k c.items))
                  (update_indices c.indexers o none key c.indices))
              there (erased c key v))
            (λ indices w. returns (
              record {
                items_once = keys-erase-Distinct key c.items v.items_once;
                indexers_once = v.indexers_once;
                total = v.total;
                agree =
                    same_objects-Agree c.indexers _ (λ k. lookup k (erase key c.items)) indices
                      (λ k. sym (lookup-erase key k c.items)) w;
              },
              λ k. lookup-erase key k c.items,
            )))
  ]

  -- The items of a list, and those that were there before.
  abbrev over : List (String × V) → (String → Option V) → String → Option V
  over l object_of k = elim (lookup k l) [ none ↦ object_of k | some obj ↦ some obj ]

  rebuild_agrees :
      (indexers : Indexers V) (l : List (String × V)) (object_of : String → Option V)
      (indices : Indices)
      → Distinct (keys indexers)
      → All Total indexers
      → Distinct (keys l)
      → ((k : String) → has (keys l) k ≡ true → object_of k ≡ none)
      → Agree indexers object_of indices
      → Returns (Agree indexers (over l object_of)) (rebuild indexers l indices)
  unfolding rebuild lookup has
  rebuild_agrees indexers [] object_of indices d total once fresh w = returns w
  rebuild_agrees indexers ((key, item) ∷ l) object_of indices d total once fresh w =
      let new : String → Option V = λ k. if same key k then some item else object_of k in
      Returns-bind
        (subst
          (λ o. Returns (Agree indexers new) (update_indices indexers o (some item) key indices))
          (fresh key (ground arith))
          (update_indices-Agree indexers object_of indices key (some item) d total w))
        (λ next u.
          Returns-weaken
            (rebuild_agrees indexers l new next d total once.1
              (λ k h.
                let away : same key k ≡ false = has_apart (keys l) key k once.0 h in
                rw away (fresh k (rw away h)))
              u)
            (λ after x.
              same_objects-Agree indexers _ _ after
                (λ k. elim (Bool-cases (same key k)) [
                  | inl here ↦ ground (
                    arith,
                    has-keys key l,
                    once.0,
                    here,
                    ap (λ j. lookup j l) (same_eq key k here),
                  )
                  | inr away ↦ ground (arith, away)
                ])
                x))

  over_nothing : (l : List (String × V)) (k : String) → over l (λ j. none) k ≡ lookup k l
  over_nothing l k = ground arith

  pub replace_lem :
      (c : ThreadSafeMap V) (items : List (String × V))
      → Distinct (keys items)
      → Inv c
      → Returns (λ d. Inv d × (d.items ≡ items)) (replace c items)
  unfolding replace
  replace_lem c items once v =
      Returns-bind
        (rebuild_agrees c.indexers items (λ k. none) [] v.indexers_once v.total once (λ k h. refl)
          (empty-Agree c.indexers))
        (λ indices w. returns (
          record {
            items_once = once;
            indexers_once = v.indexers_once;
            total = v.total;
            agree =
                same_objects-Agree c.indexers _ (λ k. lookup k items) indices (over_nothing items)
                  w;
          },
          refl,
        ))
