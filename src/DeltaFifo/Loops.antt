-- ===== src/DeltaFifo/Loops.antt =====
-- The loops of Replace: what each leaves for each key.
use Prim.Native.String.{String}
use flowline.Base.{
  ℕ, ◌+◌, ◌≡◌, ap, ◌∙◌, refl, true, false, not, ◌&&◌, ◌||◌, List, [], ◌∷◌, Option, none, some,
  is_some, if◌then◌else◌, arith, Option-cases, Bool-cases, inl, inr,
}
use flowline.Base.Keys.{
  text_key, same, same_eq, has, has-insert, lookup, store, keys, insert, lookup-store,
}
use flowline.DeltaFifo.{
  DeltaType, deleted, Obj, deleted_final_state_unknown, Delta, Deltas, DeltaFifo, is_deleted,
  newest, DeltaError, key_of, queue_action, replace_loop, delete_loop,
}
use flowline.DeltaFifo.Deltas.{gone}
use flowline.DeltaFifo.Invariant.{
  Inv, with_delta, with_delta-Queued, queue_action_lem, queue_action_fine, queue_action-Inv,
}

module _ {ℓ} {V : Type ℓ} where
  abbrev pub newest_in : Option (Deltas V) → Option (Delta V)
  newest_in none = none
  newest_in (some d) = newest d

  -- The newest delta of an id.
  abbrev pub newest_of : List (String × Deltas V) → String → Option (Delta V)
  newest_of items id = newest_in (lookup id items)

  module _ (key_func : Obj V → Option String) where
    -- What one more delta of an id changes.
    record Action (f : DeltaFifo V) (t : DeltaType) (o : Obj V) (id : String) (g : DeltaFifo V)
        : Type ℓ where
      last : Delta V
      here : newest_of g.items id ≡ some last
      same_type : last.delta_type ≡ t
      verbatim : is_deleted t ≡ false → last ≡ record { delta_type = t; obj = o }
      away : (j : String) → same id j ≡ false → lookup j g.items ≡ lookup j f.items

    queue_action-Action :
        (f : DeltaFifo V) (t : DeltaType) (o : Obj V) (id : String)
        → Inv f
        → key_of key_func o ≡ some id
        → Action f t o id (queue_action key_func f t o).0
    queue_action-Action f t o id v k =
        let w = with_delta-Queued f id t o v in
        let new = with_delta f id t o in
        let stored : lookup id (store id new f.items) ≡ some new =
          ground (arith, lookup-store id id new f.items) in
        rw (queue_action_lem key_func f t o id v k) (record {
          last = w.last;
          here = ap newest_in stored ∙ w.ends;
          same_type = w.same_type;
          verbatim = w.verbatim;
          away = λ j e. ground (arith, lookup-store id j new f.items);
        })

    -- The last object of a list with a key.
    abbrev pub last_with : String → List (Obj V) → Option (Obj V)
    last_with id [] = none
    last_with id (o ∷ l) = elim (last_with id l) [
      | some p ↦ some p
      | none ↦ elim (key_of key_func o) [
        | none ↦ none
        | some key ↦ if same key id then some o else none
      ]
    ]

    -- Every object of a list has a key.
    abbrev pub Keyed : List (Obj V) → Type 0
    Keyed [] = Unit {0}
    Keyed (o ∷ l) = ((id : String) × (key_of key_func o ≡ some id)) × Keyed l

    pub record Listed (action : DeltaType) (f : DeltaFifo V) (l : List (Obj V)) (seen : List String)
        (g : DeltaFifo V) (err : Option DeltaError) (after : List String) : Type ℓ where
      pub no_error : err ≡ none
      pub inv : Inv g
      pub seen_after : (id : String) → has after id ≡ has seen id || is_some (last_with id l)
      pub listed :
          (id : String) (o : Obj V)
          → last_with id l ≡ some o
          → newest_of g.items id ≡ some (record { delta_type = action; obj = o })
      pub unlisted : (id : String) → last_with id l ≡ none → lookup id g.items ≡ lookup id f.items

    pub replace_loop-Listed :
        (action : DeltaType)
        → is_deleted action ≡ false
        → (f : DeltaFifo V) (l : List (Obj V)) (seen : List String) → Inv f
        → Keyed l
        → Listed action f l seen
            (replace_loop key_func action f l seen).0.0
            (replace_loop key_func action f l seen).0.1
            (replace_loop key_func action f l seen).1
    unfolding replace_loop
    replace_loop-Listed action plain f [] seen v keyed = record {
      no_error = refl;
      inv = v;
      seen_after = λ id. ground arith;
      listed = λ id o e. cc;
      unlisted = λ id e. refl;
    }
    replace_loop-Listed action plain f (o ∷ l) seen v ((k, there), keyed) =
        let g = (queue_action key_func f action o).0 in
        let a = queue_action-Action f action o k v there in
        let w =
          replace_loop-Listed action plain g l (insert seen k)
            (queue_action-Inv key_func f action o v) keyed in
        rw (there, queue_action_fine key_func f action o k v there, replace_loop)
          (record {
            no_error = w.no_error;
            inv = w.inv;
            seen_after = λ id. ground (arith, there, w.seen_after id, has-insert seen k id);
            listed = λ id p e. elim (Option-cases (last_with id l)) [
              | inr (q, later) ↦ w.listed id p (ground (arith, later))
              | inl none_later ↦
                  let it : k ≡ id = same_eq k id (ground (arith, e, there, none_later)) in
                  let found : o ≡ p = ground (arith, e, there, none_later) in
                  ap newest_in (w.unlisted id none_later)
                  ∙ rw (← it, ← found) (a.here ∙ ap some (a.verbatim plain))
            ];
            unlisted = λ id e.
                let none_later : last_with id l ≡ none = ground (arith, e) in
                w.unlisted id none_later ∙ a.away id (ground (arith, e, there, none_later));
          })

    -- What the deletions of a list of keys with objects change.
    pub record Removed (f : DeltaFifo V) (l : List (String × Obj V)) (seen : List String)
        (g : DeltaFifo V) (err : Option DeltaError) : Type ℓ where
      pub no_error : err ≡ none
      pub removed :
          (id : String)
          → has seen id ≡ false
          → has (keys l) id ≡ true
          → (d : Delta V) × (newest_of g.items id ≡ some d) × (d.delta_type ≡ deleted)
      pub kept :
          (id : String)
          → not (has seen id) && has (keys l) id ≡ false
          → lookup id g.items ≡ lookup id f.items

    pub delete_loop-Removed :
        (f : DeltaFifo V) (l : List (String × Obj V)) (seen : List String) (n : ℕ)
        → Inv f
        → Removed f l seen
            (delete_loop key_func f l seen n).0.0
            (delete_loop key_func f l seen n).0.1
    unfolding delete_loop has key_of
    delete_loop-Removed f [] seen n v = record {
      no_error = refl;
      removed = λ id e. cc;
      kept = λ id e. refl;
    }
    delete_loop-Removed f ((k, o) ∷ l) seen n v = elim (Bool-cases (has seen k)) [
      | inl listed ↦
          let w = delete_loop-Removed f l seen n v in
          rw (listed, delete_loop)
            (record {
              no_error = w.no_error;
              removed = λ id e h. w.removed id e (ground (arith, same_eq k id));
              kept = λ id e. w.kept id (ground (arith, same_eq k id));
            })
      | inr gone ↦
          let final = deleted_final_state_unknown k o in
          let g = (queue_action key_func f deleted final).0 in
          let a = queue_action-Action f deleted final k v refl in
          let w =
            delete_loop-Removed g l seen (n + 1) (queue_action-Inv key_func f deleted final v) in
          rw (gone, queue_action_fine key_func f deleted final k v refl, delete_loop)
            (record {
              no_error = w.no_error;
              removed = λ id e h. elim (Bool-cases (has (keys l) id)) [
                | inl again ↦ w.removed id e again
                | inr once ↦
                    let it : k ≡ id = same_eq k id (ground arith) in
                    let same_items = w.kept id (ground arith) in
                    (a.last, ap newest_in same_items ∙ rw (← it) a.here, a.same_type)
              ];
              kept = λ id e. w.kept id (ground arith) ∙ a.away id (ground arith);
            })
    ]
