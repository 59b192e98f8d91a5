-- ===== src/DeltaFifo/Replaced.antt =====
-- Replace of a DeltaFIFO against what it leaves for each key.
use Prim.Native.String.{String}
use flowline.Base.{
  ℕ, ◌+◌, ◌≡◌, ap, ◌∙◌, refl, Bool, true, false, length, List, [], ◌∷◌, map, Option, none, some,
  is_some, if◌then◌else◌, arith, by_test, Option-cases, Bool-cases, inl, inr,
}
use flowline.Base.Keys.{text_key, has, lookup, keys, has-keys}
use flowline.DeltaFifo.{
  DeltaType, deleted, replaced, sync, Obj, Delta, Deltas, DeltaFifo, Known, is_deleted, DeltaError,
  replace_loop, delete_loop, candidates, count_first, replace,
}
use flowline.DeltaFifo.Invariant.{Inv}
use flowline.DeltaFifo.Loops.{
  newest_in, newest_of, last_with, Keyed, Listed, replace_loop-Listed, Removed, delete_loop-Removed,
}

module _ {ℓ} {V : Type ℓ} where
  module _ (key_func : Obj V → Option String) where
    -- Whether a key counts as one that was there before: without known objects, those with deltas.
    abbrev pub preexisting : Option (Known V) → DeltaFifo V → String → Bool
    preexisting none f id = is_some (lookup id f.items)
    preexisting (some known) f id = has known.list_keys id

    keys-map :
        (g : Deltas V → Obj V) (m : List (String × Deltas V))
        → keys (map (λ e. (e.0, g e.1)) m) ≡ keys m
    keys-map g [] = refl
    keys-map g ((k, d) ∷ m) = ap (λ l. k ∷ l) (keys-map g m)

    keys-listed : (g : String → Obj V) (l : List String) → keys (map (λ k. (k, g k)) l) ≡ l
    keys-listed g [] = refl
    keys-listed g (k ∷ l) = ap (λ m. k ∷ m) (keys-listed g l)

    has-candidates :
        (known : Option (Known V)) (f : DeltaFifo V) (id : String)
        → has (keys (candidates key_func known f)) id ≡ preexisting known f id
    unfolding candidates
    has-candidates none f id = ap (λ l. has l id) (keys-map _ f.items) ∙ has-keys id f.items
    has-candidates (some known) f id = ap (λ l. has l id) (keys-listed _ known.list_keys)

    preexisting-same :
        (known : Option (Known V)) (f g : DeltaFifo V) (id : String)
        → lookup id g.items ≡ lookup id f.items
        → preexisting known g id ≡ preexisting known f id
    preexisting-same none f g id e = ap is_some e
    preexisting-same (some known) f g id e = refl

    -- What a Replace leaves for an id.
    pub data Outcome (action : DeltaType) (known : Option (Known V)) (f : DeltaFifo V)
        (l : List (Obj V)) (items : List (String × Deltas V)) (id : String) : Type ℓ where
      in_list :
          (o : Obj V)
          → last_with key_func id l ≡ some o
          → newest_of items id ≡ some (record { delta_type = action; obj = o })
          → Outcome action known f l items id
      removed_now :
          last_with key_func id l ≡ none
          → preexisting known f id ≡ true
          → (d : Delta V) → newest_of items id ≡ some d
          → d.delta_type ≡ deleted
          → Outcome action known f l items id
      untouched :
          last_with key_func id l ≡ none
          → preexisting known f id ≡ false
          → lookup id items ≡ lookup id f.items
          → Outcome action known f l items id

    loops-Outcome :
        (action : DeltaType) (known : Option (Known V)) (f g h : DeltaFifo V) (l : List (Obj V))
        (err err' : Option DeltaError) (after : List String) (id : String)
        → Listed key_func action f l [] g err after
        → Removed key_func g (candidates key_func known g) after h err'
        → Outcome action known f l h.items id
    unfolding has
    loops-Outcome action known f g h l err err' after id w u =
        let in_seen = w.seen_after id in
        let cand = has-candidates known g id in
        elim (Option-cases (last_with key_func id l)) [
          | inr (o, there) ↦
              in_list o there
                (ap newest_in (u.kept id (ground (arith, in_seen, there))) ∙ w.listed id o there)
          | inl missing ↦
              let same_items = w.unlisted id missing in
              let before = preexisting-same known f g id same_items in
              elim (Bool-cases (preexisting known f id)) [
                | inl was ↦
                    let (d, there, t) =
                      u.removed id (ground (arith, in_seen, missing)) (cand ∙ before ∙ was) in
                    removed_now missing was d there t
                | inr was_not ↦
                    untouched missing was_not
                      (u.kept id (ground (arith, cand, before)) ∙ same_items)
              ]
        ]

    count_first-items : (f : DeltaFifo V) (n : ℕ) → (count_first key_func f n).items ≡ f.items
    unfolding count_first
    count_first-items f n = ground arith

    -- Replace of a DeltaFIFO as every history of calls leaves it, by a list in which every object has a
    -- key, has no error. It leaves for each id: of an id with an object in the list, the newest delta
    -- is of the type of the Replace and has the last such object; of another id that was there before,
    -- the newest delta is a deletion; the deltas of every other id are untouched. An id was there before
    -- if the known objects list it or, without known objects, if it had deltas.
    pub replace_refines :
        (emit_replaced : Bool) (known : Option (Known V)) (f : DeltaFifo V) (l : List (Obj V))
        → Inv f
        → Keyed key_func l
        → ((replace key_func emit_replaced known f l).1 ≡ none)
          × ((id : String)
              → Outcome
                  (if emit_replaced then replaced else sync)
                  known
                  f
                  l
                  (replace key_func emit_replaced known f l).0.items
                  id)
    unfolding replace
    replace_refines emit_replaced known f l v keyed =
        let action : DeltaType = if emit_replaced then replaced else sync in
        let w =
          replace_loop-Listed key_func action
            (by_test emit_replaced (λ b. is_deleted (if b then replaced else sync) ≡ false) refl
              refl)
            f l [] v keyed in
        let first = replace_loop key_func action f l [] in
        let left = candidates key_func known first.0.0 in
        let u = delete_loop-Removed key_func first.0.0 left first.1 0 w.inv in
        let last = delete_loop key_func first.0.0 left first.1 0 in
        rw (w.no_error, u.no_error, replace, count_first-items last.0.0 (length first.1 + last.1))
          (refl, λ id. loops-Outcome action known f first.0.0 last.0.0 l _ _ first.1 id w u)
