-- ===== src/DeltaFifo/Invariant.antt =====
-- What a DeltaFIFO keeps, and that one more delta keeps it.
use Prim.Native.String.{String}
use flowline.Base.{
  ◌+◌, ◌<◌, ◌≡◌, sym, ap, refl, true, ltb, length, List, [], ◌∷◌, ◌++◌, Option, none, some, is_some,
  if◌then◌else◌, arith, Option-cases, Bool-cases, inl, inr,
}
use flowline.Base.Keys.{
  text_key, same, has, has-append, append_new-Distinct, lookup, store, erase, keys, Distinct,
  lookup-store, lookup-erase, keys-store-Distinct, keys-erase-Distinct,
}
use flowline.DeltaFifo.{
  DeltaType, Obj, Deltas, DeltaFifo, dedup_deltas, or_empty, queue_deltas, key_of, queue_action,
}
use flowline.DeltaFifo.Deltas.{Compressed, Queued, dedup_lem}

module _ {ℓ} {V : Type ℓ} where
  -- The ids in the queue are those that have deltas, each once; the deltas of an id are at least one
  -- and no two deletions follow each other.
  pub record Held (queue : List String) (items : List (String × Deltas V)) : Type ℓ where
    pub queued : (id : String) → has queue id ≡ is_some (lookup id items)
    pub queue_once : Distinct queue
    pub keys_once : Distinct (keys items)
    pub proper :
        (id : String) (d : Deltas V) → lookup id items ≡ some d → Compressed d × (0 < length d)

  abbrev pub Inv : DeltaFifo V → Type ℓ
  Inv f = Held f.queue f.items

  -- The deltas of one id are replaced or added.
  pub put :
      (queue : List String) (items : List (String × Deltas V)) (id : String) (new : Deltas V)
      → Compressed new
      → 0 < length new
      → Held queue items
      → Held (if is_some (lookup id items) then queue else queue ++ id ∷ []) (store id new items)
  unfolding has
  put queue items id new compressed not_empty v = record {
    queued =
        λ j. ground (arith, lookup-store id j new items, v.queued j, has-append queue (id ∷ []) j);
    queue_once =
        ground (arith, v.queue_once, v.queued id, append_new-Distinct queue id v.queue_once);
    keys_once = keys-store-Distinct id new items v.keys_once;
    proper = λ j d e. elim (Bool-cases (same id j)) [
      | inl here ↦
          let it : new ≡ d = ground (arith, lookup-store id j new items) in
          rw (sym it) (compressed, not_empty)
      | inr away ↦ v.proper j d (ground (arith, lookup-store id j new items))
    ];
  }

  -- The id at the head is taken out.
  pub take_head :
      (id : String) (queue : List String) (items : List (String × Deltas V))
      → Held (id ∷ queue) items
      → Held queue (erase id items)
  unfolding has
  take_head id queue items v = record {
    queued = λ j. ground (arith, lookup-erase id j items, v.queued j, v.queue_once.0);
    queue_once = v.queue_once.1;
    keys_once = keys-erase-Distinct id items v.keys_once;
    proper = λ j d e. v.proper j d (ground (arith, lookup-erase id j items));
  }

  -- The deltas of an id, after one more.
  abbrev pub with_delta : DeltaFifo V → String → DeltaType → Obj V → Deltas V
  with_delta f id t o =
      dedup_deltas (or_empty (lookup id f.items) ++ record { delta_type = t; obj = o } ∷ [])

  abbrev pub queue_with : DeltaFifo V → String → Deltas V → DeltaFifo V
  queue_with f id new = record f {
    queue = if is_some (lookup id f.items) then f.queue else f.queue ++ id ∷ [];
    items = store id new f.items;
    broadcasts = f.broadcasts + 1;
  }

  old-Compressed :
      (f : DeltaFifo V) (id : String) → Inv f → Compressed (or_empty (lookup id f.items))
  old-Compressed f id v = elim (Option-cases (lookup id f.items)) [
    | inl missing ↦ rw missing tt
    | inr (d, there) ↦ rw there (v.proper id d there).0
  ]

  pub with_delta-Queued :
      (f : DeltaFifo V) (id : String) (t : DeltaType) (o : Obj V)
      → Inv f
      → Queued
          (or_empty (lookup id f.items))
          (record { delta_type = t; obj = o })
          (with_delta f id t o)
  with_delta-Queued f id t o v =
      dedup_lem (or_empty (lookup id f.items)) (record { delta_type = t; obj = o })
        (old-Compressed f id v)

  module _ (key_func : Obj V → Option String) where
    pub queue_action_lem :
        (f : DeltaFifo V) (t : DeltaType) (o : Obj V) (id : String)
        → Inv f
        → key_of key_func o ≡ some id
        → queue_action key_func f t o ≡ (queue_with f id (with_delta f id t o), none)
    unfolding queue_action queue_deltas
    queue_action_lem f t o id v k =
        let w = with_delta-Queued f id t o v in
        let long : ltb 0 (length (with_delta f id t o)) ≡ true = ground (arith, w.not_empty) in
        rw (k, queue_action, queue_deltas, long) refl

    queue_with-Inv :
        (f : DeltaFifo V) (t : DeltaType) (o : Obj V) (id : String)
        → Inv f
        → Inv (queue_with f id (with_delta f id t o))
    queue_with-Inv f t o id v =
        let w = with_delta-Queued f id t o v in
        put f.queue f.items id (with_delta f id t o) w.compressed w.not_empty v

    pub queue_action-Inv :
        (f : DeltaFifo V) (t : DeltaType) (o : Obj V) → Inv f → Inv (queue_action key_func f t o).0
    unfolding queue_action
    queue_action-Inv f t o v = elim (Option-cases (key_of key_func o)) [
      | inl missing ↦ rw (missing, queue_action) v
      | inr (id, there) ↦ rw (queue_action_lem f t o id v there) (queue_with-Inv f t o id v)
    ]

    -- With a key, there is no error.
    pub queue_action_fine :
        (f : DeltaFifo V) (t : DeltaType) (o : Obj V) (id : String)
        → Inv f
        → key_of key_func o ≡ some id
        → (queue_action key_func f t o).1 ≡ none
    queue_action_fine f t o id v k = ap (λ r. r.1) (queue_action_lem f t o id v k)
