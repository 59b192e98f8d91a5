-- ===== src/DeltaFifo/Methods.antt =====
-- Every method of a DeltaFIFO but Pop keeps its invariant.
use Prim.Native.String.{String}
use flowline.Base.{
  ℕ, ◌+◌, ◌<◌, ◌≡◌, subst, refl, Bool, ltb, length, List, [], ◌∷◌, ◌++◌, Option, none, some,
  is_some, if◌then◌else◌, arith, Option-cases, Bool-cases, inl, inr,
}
use flowline.Base.Keys.{text_key, has, lookup, store, insert}
use flowline.Fifo
use flowline.Fifo.{
  Fifo, Processed, fine, failed, requeue, PopResult, blocked, fifo_closed, popped, close,
  process_item, pop_loop, add_if_not_present_by_id, new_fifo,
}
use flowline.DeltaFifo.{
  DeltaType, deleted, replaced, sync, Obj, object, deleted_final_state_unknown, Deltas, DeltaFifo,
  Found, lookup_failed, absent, present, Known, newest, or_empty, key_of, key_of_deltas,
  queue_action, populate, add_if_not_present, unknown_to, delete, replace_loop, delete_loop,
  candidates, count_first, replace, sync_key, resync_loop, resync,
}
use flowline.DeltaFifo.Deltas.{Compressed}
use flowline.DeltaFifo.Invariant.{Held, Inv, put, queue_action_fine, queue_action-Inv}

module _ {ℓ} {V : Type ℓ} where
  module _ (key_func : Obj V → Option String) where
    pub add_by_id-Inv :
        (f : DeltaFifo V) (id : String) (d : Deltas V)
        → Compressed d
        → 0 < length d
        → Inv f
        → Inv (Fifo.add_if_not_present_by_id f id d)
    unfolding add_if_not_present_by_id
    add_by_id-Inv f id d compressed not_empty v = elim (Option-cases (lookup id f.items)) [
      | inl missing ↦
          rw (missing, add_if_not_present_by_id)
            (subst
              (λ o. Held (if is_some o then f.queue else f.queue ++ id ∷ []) (store id d f.items))
              missing (put f.queue f.items id d compressed not_empty v))
      | inr (old, there) ↦ rw (there, add_if_not_present_by_id) v
    ]

    key_of_deltas-length :
        (d : Deltas V) (id : String) → key_of_deltas key_func d ≡ some id → 0 < length d
    unfolding key_of_deltas newest
    key_of_deltas-length [] id e = cc
    key_of_deltas-length (x ∷ d) id e = omega arith

    pub add_if_not_present-Inv :
        (f : DeltaFifo V) (d : Deltas V)
        → Compressed d
        → Inv f
        → Inv (add_if_not_present key_func f d).0
    unfolding add_if_not_present
    add_if_not_present-Inv f d compressed v = elim (Option-cases (key_of_deltas key_func d)) [
      | inl missing ↦ rw (missing, add_if_not_present) v
      | inr (id, there) ↦
          rw (there, add_if_not_present)
            (add_by_id-Inv f id d compressed (key_of_deltas-length d id there) v)
    ]

    pub delete-Inv :
        (known : Option (Known V)) (f : DeltaFifo V) (o : Obj V)
        → Inv f
        → Inv (delete key_func known f o).0
    unfolding delete
    delete-Inv known f o v = elim (Option-cases (key_of key_func o)) [
      | inl missing ↦ rw (missing, delete) v
      | inr (id, there) ↦ elim (Bool-cases (unknown_to key_func known f id)) [
        | inl unknown ↦ rw (there, unknown, delete) v
        | inr listed ↦
            rw (there, listed, delete) (queue_action-Inv key_func (populate key_func f) deleted o v)
      ]
    ]

    replace_loop-Inv :
        (action : DeltaType) (f : DeltaFifo V) (l : List (Obj V)) (seen : List String)
        → Inv f
        → Inv (replace_loop key_func action f l seen).0.0
    unfolding replace_loop
    replace_loop-Inv action f [] seen v = v
    replace_loop-Inv action f (o ∷ l) seen v = elim (Option-cases (key_of key_func o)) [
      | inl missing ↦ rw (missing, replace_loop) v
      | inr (id, there) ↦
          rw (there, queue_action_fine key_func f action o id v there, replace_loop)
            (replace_loop-Inv action (queue_action key_func f action o).0 l (insert seen id)
              (queue_action-Inv key_func f action o v))
    ]

    delete_loop-Inv :
        (f : DeltaFifo V) (l : List (String × Obj V)) (seen : List String) (n : ℕ)
        → Inv f
        → Inv (delete_loop key_func f l seen n).0.0
    unfolding delete_loop key_of
    delete_loop-Inv f [] seen n v = v
    delete_loop-Inv f ((k, o) ∷ l) seen n v = elim (Bool-cases (has seen k)) [
      | inl listed ↦ rw (listed, delete_loop) (delete_loop-Inv f l seen n v)
      | inr gone ↦
          let final = deleted_final_state_unknown k o in
          rw (gone, queue_action_fine key_func f deleted final k v refl, delete_loop)
            (delete_loop-Inv (queue_action key_func f deleted final).0 l seen (n + 1)
              (queue_action-Inv key_func f deleted final v))
    ]

    sync_key-Inv : (f : DeltaFifo V) (found : Found V) → Inv f → Inv (sync_key key_func f found).0
    unfolding sync_key
    sync_key-Inv f lookup_failed v = v
    sync_key-Inv f absent v = v
    sync_key-Inv f (present o) v = elim (Option-cases (key_of key_func (object o))) [
      | inl missing ↦ rw (missing, sync_key) v
      | inr (id, there) ↦ elim (Bool-cases (ltb 0 (length (or_empty (lookup id f.items))))) [
        | inl pending ↦ rw (there, pending, sync_key) v
        | inr idle ↦
            rw (there, idle, sync_key, queue_action_fine key_func f sync (object o) id v there)
              (queue_action-Inv key_func f sync (object o) v)
      ]
    ]

    count_first-Inv : (f : DeltaFifo V) (n : ℕ) → Inv f → Inv (count_first key_func f n)
    unfolding count_first
    count_first-Inv f n v = elim (Bool-cases f.populated) [
      | inl before ↦ rw (before, count_first) v
      | inr first ↦ rw (first, count_first) v
    ]

    pub replace-Inv :
        (emit_replaced : Bool) (known : Option (Known V)) (f : DeltaFifo V) (l : List (Obj V))
        → Inv f
        → Inv (replace key_func emit_replaced known f l).0
    unfolding replace
    replace-Inv emit_replaced known f l v =
        let action : DeltaType = if emit_replaced then replaced else sync in
        let first = replace_loop key_func action f l [] in
        let w = replace_loop-Inv action f l [] v in
        elim (Option-cases first.0.1) [
          | inr (e, there) ↦ rw (there, replace) w
          | inl fine_ ↦
              let u = delete_loop-Inv first.0.0 (candidates key_func known first.0.0) first.1 0 w in
              elim (Option-cases
                (delete_loop key_func first.0.0 (candidates key_func known first.0.0) first.1
                  0).0.1) [
                    | inr (e, there) ↦ rw (fine_, there, replace) u
                    | inl fine' ↦
                        rw (fine_, fine', replace)
                          (count_first-Inv
                            (delete_loop key_func first.0.0 (candidates key_func known first.0.0)
                              first.1 0).0.0
                            _ u)
                  ]
        ]

    resync_loop-Inv :
        (known : Known V) (f : DeltaFifo V) (l : List String)
        → Inv f
        → Inv (resync_loop key_func known f l).0
    unfolding resync_loop
    resync_loop-Inv known f [] v = v
    resync_loop-Inv known f (k ∷ l) v =
        let w = sync_key-Inv f (known.get_by_key k) v in
        elim (Option-cases (sync_key key_func f (known.get_by_key k)).1) [
          | inl fine_ ↦
              rw (fine_, resync_loop)
                (resync_loop-Inv known (sync_key key_func f (known.get_by_key k)).0 l w)
          | inr (e, there) ↦ rw (there, resync_loop) w
        ]

    pub resync-Inv :
        (known : Option (Known V)) (f : DeltaFifo V) → Inv f → Inv (resync key_func known f).0
    unfolding resync
    resync-Inv none f v = v
    resync-Inv (some known) f v = resync_loop-Inv known f known.list_keys v
