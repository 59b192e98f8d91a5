-- ===== src/Store/Invariant.antt =====
-- updateIndices against what the indices hold of each object.
use Prim.Native.String.{String}
use flowline.Base.{
  ◌≡◌, refl, ap, sym, subst, ◌∙◌, Bool, true, false, ◌&&◌, All, List, [], ◌∷◌, Option, none, some,
  if◌then◌else◌, arith, Option-cases, Bool-cases, inl, inr,
}
use flowline.Base.Keys.{
  text_key, same, same_eq, same_refl, has, has_apart, has-keys, keys, Distinct, lookup, store,
  lookup-store,
}
use flowline.Base.Run.{Returns, returns, Returns-bind, Returns-weaken}
use flowline.Store.{
  Index, IndexFunc, Indices, Indexers, or_empty, update_index, index_values, update_indices,
  keys_at,
}
use flowline.Store.Index.{at, Sound, has-update_index, update_index-Sound}

keys_at-store :
    (name n value : String) (index : Index) (indices : Indices)
    → keys_at (store name index indices) n value
      ≡ (if same name n then at index value else keys_at indices n value)
unfolding keys_at
keys_at-store name n value index indices = ground (arith, lookup-store name n index indices)

store-Sound :
    (name n : String) (index : Index) (indices : Indices)
    → Sound index
    → Sound (or_empty (lookup n indices))
    → Sound (or_empty (lookup n (store name index indices)))
store-Sound name n index indices first rest = elim (Bool-cases (same name n)) [
  | inl here ↦ rw (lookup-store name n index indices, here) first
  | inr away ↦ rw (lookup-store name n index indices, away) rest
]

module _ {ℓ} {V : Type ℓ} where
  -- The index function does not fail.
  abbrev pub Total : String × IndexFunc V → Type ℓ
  Total e = (obj : V) → (values : List String) × (e.1 obj ≡ some values)

  -- Whether an object is indexed under a value.
  abbrev pub indexed : Option (IndexFunc V) → Option V → String → Bool
  indexed none obj value = false
  indexed (some f) none value = false
  indexed (some f) (some obj) value = has (or_empty (f obj)) value

  -- The indices hold what the index functions say of the objects that `object_of` gives.
  pub record Agree (indexers : Indexers V) (object_of : String → Option V) (indices : Indices)
      : Type ℓ where
    pub agrees :
        (name value key : String)
        → has (keys_at indices name value) key
          ≡ indexed (lookup name indexers) (object_of key) value
    pub sound : (name : String) → Sound (or_empty (lookup name indices))

  -- The indices once the object of a key is another one.
  record Moved (l : Indexers V) (new : Option V) (key : String) (indices after : Indices)
      : Type ℓ where
    moved :
        (name value k : String)
        → has (keys_at after name value) k ≡ (
            if has (keys l) name && same key k
            then indexed (lookup name l) new value
            else has (keys_at indices name value) k)
    still_sound : (name : String) → Sound (or_empty (lookup name after))

  values_return :
      (name : String) (f : IndexFunc V) (o : Option V)
      → Total (name, f)
      → Returns (λ l. (value : String) → has l value ≡ indexed (some f) o value) (index_values f o)
  unfolding index_values has
  values_return name f none total = returns (λ value. refl)
  values_return name f (some obj) total = rw ((total obj).1, index_values) (returns (λ value. refl))

  update_indices_lem :
      (l : Indexers V) (old new : Option V) (key : String) (indices : Indices)
      → Distinct (keys l)
      → All Total l
      → ((name : String) → Sound (or_empty (lookup name indices)))
      → ((name value : String)
          → has (keys l) name ≡ true
          → has (keys_at indices name value) key ≡ indexed (lookup name l) old value)
      → Returns (Moved l new key indices) (update_indices l old new key indices)
  unfolding update_indices has lookup keys_at
  update_indices_lem [] old new key indices d total sound before =
      returns (record { moved = λ name value k. refl; still_sound = sound })
  update_indices_lem ((name, f) ∷ l) old new key indices d (first, total) sound before =
      Returns-bind (values_return name f old first) (λ old_values is_old.
        Returns-bind (values_return name f new first) (λ new_values is_new.
          let index = or_empty (lookup name indices) in
          let next = store name (update_index key old_values new_values index) indices in
          let here_moved : (after : Indices)
              → Moved l new key next after
              → (value k : String)
              → has (keys_at after name value) k ≡ (
                  if same key k
                  then indexed (some f) new value
                  else has (keys_at indices name value) k) =
            λ after w value k.
              let now : has (at index value) key ≡ has old_values value =
                (rw (same_refl name) at (before name value (rw (same_refl name) refl)))
                ∙ sym (is_old value) in
              ground (
                arith,
                d.0,
                same_refl name,
                w.moved name value k,
                keys_at-store name name value (update_index key old_values new_values index)
                    indices,
                has-update_index key old_values new_values index value k now,
                is_new value,
              ) in
          Returns-weaken
            (update_indices_lem l old new key next d.1 total
              (λ n.
                store-Sound name n _ indices
                  (update_index-Sound key old_values new_values index (sound name)) (sound n))
              (λ n value h.
                let away : same name n ≡ false = has_apart (keys l) name n d.0 h in
                ground (
                  arith,
                  away,
                  keys_at-store name n value (update_index key old_values new_values index) indices,
                  before n value,
                )))
            (λ after w. record {
              moved = λ n value k. elim (Bool-cases (same name n)) [
                | inl here ↦ rw here (
                    subst
                      (λ m. has (keys_at after m value) k ≡ (
                        if same key k
                        then indexed (some f) new value
                        else has (keys_at indices m value) k))
                      (same_eq name n here) (here_moved after w value k))
                | inr away ↦ ground (
                  arith,
                  away,
                  w.moved n value k,
                  keys_at-store name n value (update_index key old_values new_values index) indices,
                )
              ];
              still_sound = w.still_sound;
            })))

  pub update_indices-Agree :
      (indexers : Indexers V) (object_of : String → Option V) (indices : Indices) (key : String)
      (new : Option V)
      → Distinct (keys indexers)
      → All Total indexers
      → Agree indexers object_of indices
      → Returns
          (Agree indexers (λ k. if same key k then new else object_of k))
          (update_indices indexers (object_of key) new key indices)
  update_indices-Agree indexers object_of indices key new d total w =
      Returns-weaken
        (update_indices_lem indexers (object_of key) new key indices d total w.sound
          (λ name value h. w.agrees name value key))
        (λ after m. record {
          agrees = λ name value k. elim (Option-cases (lookup name indexers)) [
            | inl missing ↦ ground (
              arith,
              m.moved name value k,
              has-keys name indexers,
              missing,
              w.agrees name value k,
            )
            | inr (f, there) ↦ elim (Bool-cases (same key k)) [
              | inl here ↦
                  rw here
                    (ground (arith, m.moved name value k, has-keys name indexers, there, here))
              | inr away ↦ rw away (ground (arith, m.moved name value k, w.agrees name value k))
            ]
          ];
          sound = m.still_sound;
        })

  pub same_objects-Agree :
      (indexers : Indexers V) (f g : String → Option V) (indices : Indices)
      → ((k : String) → f k ≡ g k)
      → Agree indexers f indices
      → Agree indexers g indices
  same_objects-Agree indexers f g indices same_objects w = record {
    agrees = λ name value k.
        w.agrees name value k ∙ ap (λ o. indexed (lookup name indexers) o value) (same_objects k);
    sound = w.sound;
  }

  pub empty-Agree : (indexers : Indexers V) → Agree indexers (λ k. none) []
  unfolding keys_at lookup has
  empty-Agree indexers = record {
    agrees = λ name value k. elim (Option-cases (lookup name indexers)) [
      | inl missing ↦ rw missing refl
      | inr (f, there) ↦ rw there refl
    ];
    sound = λ name value s e. absurd cc;
  }
