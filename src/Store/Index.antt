-- ===== src/Store/Index.antt =====
-- One index: the keys of each value after updateIndices, and that it keeps no empty set.
use Prim.Native.String.{String}
use flowline.Base.{
  ◌<◌, ◌≡◌, refl, ap, sym, ◌∙◌, true, not, ◌&&◌, ◌||◌, ◌==◌, length, List, [], ◌∷◌, Option, none,
  some, if◌then◌else◌, arith, Option-cases, Bool-cases, inl, inr,
}
use flowline.Base.Keys.{
  text_key, same, same_eq, has, has-insert, has-remove, has-nonempty, insert, remove, Distinct,
  insert-Distinct, remove-Distinct, lookup, store, erase, lookup-store, lookup-erase,
}
use flowline.Store.{
  Index, or_empty, add_key_to_index, delete_key_from_index, delete_values, add_values, unchanged,
  update_index,
}

abbrev pub at : Index → String → List String
at index value = or_empty (lookup value index)

-- Every set of an index has a key, and no key twice.
abbrev pub Sound : Index → Type 0
Sound index =
    (value : String) (s : List String) → lookup value index ≡ some s → (0 < length s) × Distinct s

pub at-Distinct : (index : Index) (value : String) → Sound index → Distinct (at index value)
at-Distinct index value sound = elim (Option-cases (lookup value index)) [
  | inl missing ↦ rw missing tt
  | inr (s, there) ↦ rw there (sound value s there).1
]

has-add_key :
    (key value : String) (index : Index) (v k : String)
    → has (at (add_key_to_index key value index) v) k
      ≡ (same value v && same key k) || has (at index v) k
unfolding add_key_to_index has
has-add_key key value index v k = ground (
  arith,
  lookup-store value v (insert (at index value) key) index,
  has-insert (at index value) key k,
  same_eq value v,
)

add_key-Sound :
    (key value : String) (index : Index) → Sound index → Sound (add_key_to_index key value index)
unfolding add_key_to_index
add_key-Sound key value index sound v s e = elim (Bool-cases (same value v)) [
  | inl here ↦
      let it : insert (at index value) key ≡ s =
        ground (arith, lookup-store value v (insert (at index value) key) index) in
      rw (← it) (
        has-nonempty (insert (at index value) key) key
            (ground (arith, has-insert (at index value) key key)),
        insert-Distinct (at index value) key (at-Distinct index value sound),
      )
  | inr away ↦ sound v s (ground (arith, lookup-store value v (insert (at index value) key) index))
]

-- What the index keeps for a value that has the keys of a list.
abbrev kept : List String → Option (List String)
kept [] = none
kept (k ∷ l) = some (k ∷ l)

kept-at : (l : List String) → or_empty (kept l) ≡ l
kept-at [] = refl
kept-at (k ∷ l) = refl

kept-some : (l s : List String) → kept l ≡ some s → (l ≡ s) × (0 < length l)
kept-some [] s e = cc
kept-some (k ∷ l) s e = (cc, omega arith)

lookup-rest :
    (value v : String) (rest : List String) (index : Index)
    → lookup v (if length rest == 0 then erase value index else store value rest index)
      ≡ (if same value v then kept rest else lookup v index)
lookup-rest value v [] index = lookup-erase value v index
lookup-rest value v (k ∷ l) index = ground (arith, lookup-store value v (k ∷ l) index)

lookup-delete_key :
    (key value : String) (index : Index) (v : String)
    → lookup v (delete_key_from_index key value index)
      ≡ (if same value v then kept (remove (at index value) key) else lookup v index)
unfolding delete_key_from_index remove
lookup-delete_key key value index v = elim (Option-cases (lookup value index)) [
  | inl missing ↦ rw (missing, delete_key_from_index) (ground (arith, same_eq value v, missing))
  | inr (s, there) ↦ rw (there, delete_key_from_index) (lookup-rest value v (remove s key) index)
]

has-delete_key :
    (key value : String) (index : Index) (v k : String)
    → has (at (delete_key_from_index key value index) v) k
      ≡ not (same value v && same key k) && has (at index v) k
has-delete_key key value index v k =
    rw (lookup-delete_key key value index v) (elim (Bool-cases (same value v)) [
      | inl here ↦
          rw (here, kept-at (remove (at index value) key))
            (ground (
              arith,
              has-remove (at index value) key k,
              ap (λ x. has (at index x) k) (same_eq value v here),
            ))
      | inr away ↦ rw away refl
    ])

delete_key-Sound :
    (key value : String) (index : Index)
    → Sound index
    → Sound (delete_key_from_index key value index)
delete_key-Sound key value index sound v s e = elim (Bool-cases (same value v)) [
  | inl here ↦
      let (it, long) =
        kept-some (remove (at index value) key) s
          (ground (arith, lookup-delete_key key value index v)) in
      rw (← it) (long, remove-Distinct (at index value) key (at-Distinct index value sound))
  | inr away ↦ sound v s (ground (arith, lookup-delete_key key value index v))
]

has-delete_values :
    (key : String) (old : List String) (index : Index) (v k : String)
    → has (at (delete_values key old index) v) k
      ≡ not (has old v && same key k) && has (at index v) k
unfolding delete_values has
has-delete_values key [] index v k = refl
has-delete_values key (value ∷ l) index v k = ground (
  arith,
  has-delete_values key l (delete_key_from_index key value index) v k,
  has-delete_key key value index v k,
)

has-add_values :
    (key : String) (new : List String) (index : Index) (v k : String)
    → has (at (add_values key new index) v) k ≡ (has new v && same key k) || has (at index v) k
unfolding add_values has
has-add_values key [] index v k = refl
has-add_values key (value ∷ l) index v k = ground (
  arith,
  has-add_values key l (add_key_to_index key value index) v k,
  has-add_key key value index v k,
)

delete_values-Sound :
    (key : String) (old : List String) (index : Index)
    → Sound index
    → Sound (delete_values key old index)
unfolding delete_values
delete_values-Sound key [] index sound = sound
delete_values-Sound key (value ∷ l) index sound =
    delete_values-Sound key l (delete_key_from_index key value index)
      (delete_key-Sound key value index sound)

add_values-Sound :
    (key : String) (new : List String) (index : Index)
    → Sound index
    → Sound (add_values key new index)
unfolding add_values
add_values-Sound key [] index sound = sound
add_values-Sound key (value ∷ l) index sound =
    add_values-Sound key l (add_key_to_index key value index) (add_key-Sound key value index sound)

pub update_index-Sound :
    (key : String) (old new : List String) (index : Index)
    → Sound index
    → Sound (update_index key old new index)
unfolding update_index
update_index-Sound key old new index sound = elim (Bool-cases (unchanged old new)) [
  | inl still ↦ rw (still, update_index) sound
  | inr moved ↦
      rw (moved, update_index)
        (add_values-Sound key new (delete_values key old index)
          (delete_values-Sound key old index sound))
]

unchanged-has :
    (old new : List String) (v : String) → unchanged old new ≡ true → has new v ≡ has old v
unfolding unchanged has
unchanged-has (a ∷ []) (b ∷ []) v e = ap (λ x. has (x ∷ []) v) (same_eq b a e)
unchanged-has [] new v e = absurd cc
unchanged-has (a ∷ []) [] v e = absurd cc
unchanged-has (a ∷ []) (b ∷ c ∷ l) v e = absurd cc
unchanged-has (a ∷ b ∷ l) new v e = absurd cc

-- The keys of a value after the update, if the index had the key under its old values.
pub has-update_index :
    (key : String) (old new : List String) (index : Index) (v k : String)
    → has (at index v) key ≡ has old v
    → has (at (update_index key old new index) v) k
      ≡ (if same key k then has new v else has (at index v) k)
unfolding update_index
has-update_index key old new index v k before = elim (Bool-cases (unchanged old new)) [
  | inl still ↦
      rw (still, update_index)
        (elim (Bool-cases (same key k)) [
          | inl here ↦ rw here (
              ap (has (at index v)) (sym (same_eq key k here))
              ∙ before
              ∙ sym (unchanged-has old new v still))
          | inr away ↦ rw away refl
        ])
  | inr moved ↦
      rw (moved, update_index)
        (ground (
          arith,
          has-add_values key new (delete_values key old index) v k,
          has-delete_values key old index v k,
          before,
          same_eq key k,
        ))
]
