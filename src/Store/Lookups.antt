-- ===== src/Store/Lookups.antt =====
-- The lookups by index: Index, ByIndex, IndexKeys and ListIndexFuncValues.
use Prim.Native.String.{String}
use flowline.Base.{
  ◌≡◌, refl, ap, ◌∙◌, Bool, false, ltb, ◌||◌, length, List, [], ◌∷◌, map, Option, some, arith,
  Option-cases, inl, inr,
}
use flowline.Base.Keys.{
  text_key, has, has-keys, has-insert, insert, insert-Distinct, keys, Distinct, lookup,
}
use flowline.Store.{
  Index, IndexFunc, ThreadSafeMap, answer, or_empty, insert_all, union_keys, keys_of_values,
  keys_at, index, by_index, index_keys, list_index_func_values,
}
use flowline.Store.Index.{at, Sound, at-Distinct}
use flowline.Store.Invariant.{indexed}
use flowline.Store.Writes.{Inv}

has-insert_all :
    (l collected : List String) (k : String)
    → has (insert_all l collected) k ≡ has l k || has collected k
unfolding insert_all has
has-insert_all [] collected k = refl
has-insert_all (x ∷ l) collected k =
    ground (arith, has-insert_all l (insert collected x) k, has-insert collected x k)

insert_all-Distinct :
    (l collected : List String) → Distinct collected → Distinct (insert_all l collected)
unfolding insert_all
insert_all-Distinct [] collected d = d
insert_all-Distinct (x ∷ l) collected d =
    insert_all-Distinct l (insert collected x) (insert-Distinct collected x d)

-- Whether an index has a key under one of some values.
abbrev under : Index → List String → String → Bool
under i [] k = false
under i (value ∷ l) k = has (at i value) k || under i l k

has-union_keys :
    (i : Index) (values collected : List String) (k : String)
    → has (union_keys i values collected) k ≡ has collected k || under i values k
unfolding union_keys
has-union_keys i [] collected k = ground arith
has-union_keys i (value ∷ l) collected k = ground (
  arith,
  has-union_keys i l (insert_all (at i value) collected) k,
  has-insert_all (at i value) collected k,
)

union_keys-Distinct :
    (i : Index) (values collected : List String)
    → Distinct collected
    → Distinct (union_keys i values collected)
unfolding union_keys
union_keys-Distinct i [] collected d = d
union_keys-Distinct i (value ∷ l) collected d =
    union_keys-Distinct i l (insert_all (at i value) collected)
      (insert_all-Distinct (at i value) collected d)

has-keys_of_values :
    (i : Index) (values : List String) (k : String)
    → has (keys_of_values i values) k ≡ under i values k
unfolding keys_of_values has
has-keys_of_values i [] k = refl
has-keys_of_values i (value ∷ []) k = ground arith
has-keys_of_values i (a ∷ b ∷ l) k = has-union_keys i (a ∷ b ∷ l) [] k

keys_of_values-Distinct :
    (i : Index) (values : List String) → Sound i → Distinct (keys_of_values i values)
unfolding keys_of_values
keys_of_values-Distinct i [] sound = tt
keys_of_values-Distinct i (value ∷ []) sound = at-Distinct i value sound
keys_of_values-Distinct i (a ∷ b ∷ l) sound = union_keys-Distinct i (a ∷ b ∷ l) [] tt

nonempty_value :
    (i : Index) (value : String) → Sound i → has (keys i) value ≡ ltb 0 (length (at i value))
nonempty_value i value sound = elim (Option-cases (lookup value i)) [
  | inl missing ↦ ground (arith, has-keys value i, missing)
  | inr (s, there) ↦ ground (arith, has-keys value i, there, (sound value s there).0)
]

module _ {ℓ} {V : Type ℓ} where
  -- Whether an object is indexed under one of some values.
  abbrev pub shares : IndexFunc V → Option V → List String → Bool
  shares f o [] = false
  shares f o (value ∷ l) = indexed (some f) o value || shares f o l

  under-shares :
      (c : ThreadSafeMap V) (name : String) (f : IndexFunc V) (values : List String) (k : String)
      → Inv c
      → lookup name c.indexers ≡ some f
      → under (or_empty (lookup name c.indices)) values k ≡ shares f (lookup k c.items) values
  unfolding keys_at
  under-shares c name f [] k v there = refl
  under-shares c name f (value ∷ l) k v there =
      let here : has (at (or_empty (lookup name c.indices)) value) k
          ≡ indexed (some f) (lookup k c.items) value =
        v.agree.agrees name value k ∙ ap (λ g. indexed g (lookup k c.items) value) there in
      rw (here, under-shares c name f l k v there) refl

  -- Index, in a store as every history of calls leaves it, by an object for which the index function
  -- gives some values: it returns the objects of a set of keys, each key once, which are those whose
  -- object has one of these values.
  pub index_correct :
      (c : ThreadSafeMap V) (name : String) (f : IndexFunc V) (obj : V) (values : List String)
      → Inv c
      → lookup name c.indexers ≡ some f
      → f obj ≡ some values
      → (s : List String) × (index c name obj ≡ answer (map (λ k. lookup k c.items) s))
        × Distinct s
        × ((k : String) → has s k ≡ shares f (lookup k c.items) values)
  unfolding index
  index_correct c name f obj values v there said = (
    keys_of_values (or_empty (lookup name c.indices)) values,
    rw (there, said, index) refl,
    keys_of_values-Distinct (or_empty (lookup name c.indices)) values (v.agree.sound name),
    λ k.
        has-keys_of_values (or_empty (lookup name c.indices)) values k
        ∙ under-shares c name f values k v there,
  )

  -- ByIndex and IndexKeys, in a store as every history of calls leaves it, of an index that exists:
  -- there is a set of keys, each once, which are those whose object has the given value; IndexKeys
  -- returns them and ByIndex their objects. ListIndexFuncValues lists the value exactly if there are any.
  pub by_index_correct :
      (c : ThreadSafeMap V) (name : String) (f : IndexFunc V) (value : String)
      → Inv c
      → lookup name c.indexers ≡ some f
      → (s : List String) × (index_keys c name value ≡ answer s)
        × (by_index c name value ≡ answer (map (λ k. lookup k c.items) s))
        × Distinct s
        × ((k : String) → has s k ≡ indexed (some f) (lookup k c.items) value)
        × (has (list_index_func_values c name) value ≡ ltb 0 (length s))
  unfolding index_keys by_index keys_at list_index_func_values
  by_index_correct c name f value v there = (
    at (or_empty (lookup name c.indices)) value,
    rw (there, index_keys) refl,
    rw (there, by_index) refl,
    at-Distinct (or_empty (lookup name c.indices)) value (v.agree.sound name),
    λ k. v.agree.agrees name value k ∙ ap (λ g. indexed g (lookup k c.items) value) there,
    nonempty_value (or_empty (lookup name c.indices)) value (v.agree.sound name),
  )
