-- ===== src/DeltaFifo.antt =====
-- pkg/informer/delta_fifo.go: DeltaFIFO. It has the fields of a FIFO whose objects are lists of
-- deltas, and its Pop is the loop of the FIFO. The key function and the store of known objects are
-- the caller's. An object given to Add, Update, Delete or Replace is not itself a list of deltas.
mod Deltas
mod Histories
mod Invariant
mod Loops
mod Methods
mod Replaced
mod Tests
use Prim.Native.String.{String}
use flowline.Base.{
  ℕ, ◌+◌, Bool, true, false, ltb, ◌&&◌, ◌==◌, length, List, [], ◌∷◌, ◌++◌, map, Option, none, some,
  is_some, if◌then◌else◌,
}
use flowline.Base.Keys.{text_key, has, insert, lookup, store, keys}
use flowline.Fifo
use flowline.Fifo.{Fifo, Processed, PopResult}

pub data DeltaType : Type 0 where
  added updated deleted replaced sync : DeltaType

-- What a Go interface holds: nothing, an object, or DeletedFinalStateUnknown with its key.
pub data Obj {ℓ} (V : Type ℓ) : Type ℓ where
  nothing : Obj V
  object : V → Obj V
  deleted_final_state_unknown : String → Obj V → Obj V

pub record Delta {ℓ} (V : Type ℓ) : Type ℓ where
  pub delta_type : DeltaType
  pub obj : Obj V

abbrev pub Deltas {ℓ} : Type ℓ → Type ℓ
Deltas V = List (Delta V)

abbrev pub DeltaFifo {ℓ} : Type ℓ → Type ℓ
DeltaFifo V = Fifo (Deltas V)

pub data DeltaError : Type 0 where
  key_error empty_deltas cannot_enqueue cannot_sync : DeltaError

-- What GetByKey of the known objects returns.
pub data Found {ℓ} (V : Type ℓ) : Type ℓ where
  lookup_failed absent : Found V
  present : V → Found V

-- KeyListerGetter
pub record Known {ℓ} (V : Type ℓ) : Type ℓ where
  pub list_keys : List String
  pub get_by_key : String → Found V

abbrev pub is_deleted : DeltaType → Bool
is_deleted deleted = true
is_deleted added = false
is_deleted updated = false
is_deleted replaced = false
is_deleted sync = false

-- The state after a call, and its error.
abbrev pub Result {ℓ} : Type ℓ → Type ℓ
Result V = DeltaFifo V × Option DeltaError

module _ {ℓ} {V : Type ℓ} where
  -- Newest
  unfoldable pub newest : Deltas V → Option (Delta V)
  newest [] = none
  newest (d ∷ []) = some d
  newest (d ∷ e ∷ l) = newest (e ∷ l)

  -- Oldest
  unfoldable pub oldest : Deltas V → Option (Delta V)
  oldest [] = none
  oldest (d ∷ l) = some d

  kept_object : Obj V → Delta V → Delta V → Delta V
  kept_object (deleted_final_state_unknown k o) a b = a
  kept_object nothing a b = b
  kept_object (object v) a b = b

  -- isDup and isDeletionDup
  unfoldable pub is_dup : Delta V → Delta V → Option (Delta V)
  unfolding kept_object
  is_dup a b =
      if is_deleted b.delta_type
      then (if is_deleted a.delta_type then some (kept_object b.obj a b) else none)
      else none

  -- dedupDeltas
  unfoldable pub dedup_deltas : Deltas V → Deltas V
  dedup_deltas [] = []
  dedup_deltas (b ∷ []) = b ∷ []
  dedup_deltas (b ∷ a ∷ []) = elim (is_dup a b) [ none ↦ b ∷ a ∷ [] | some out ↦ out ∷ [] ]
  dedup_deltas (c ∷ b ∷ a ∷ l) = c ∷ dedup_deltas (b ∷ a ∷ l)

  unfoldable pub new_delta_fifo : DeltaFifo V
  new_delta_fifo = Fifo.new_fifo

  abbrev or_empty : Option (Deltas V) → Deltas V
  or_empty none = []
  or_empty (some d) = d

  -- The part of queueActionLocked that follows the key.
  unfoldable pub queue_deltas : DeltaFifo V → String → Deltas V → Result V
  queue_deltas f id new =
      if ltb 0 (length new)
      then (
        record f {
          queue = if is_some (lookup id f.items) then f.queue else f.queue ++ id ∷ [];
          items = store id new f.items;
          broadcasts = f.broadcasts + 1;
        },
        none,
      )
      else (elim (lookup id f.items) [
        | none ↦ (f, none)
        | some old ↦ (record f { items = store id new f.items }, some empty_deltas)
      ])

  -- listLocked
  unfoldable pub list : DeltaFifo V → List (Option (Obj V))
  list f = map (λ e. elim (newest e.1) [ none ↦ none | some d ↦ some d.obj ]) f.items

  -- ListKeys
  unfoldable pub list_keys : DeltaFifo V → List String
  list_keys f = f.queue

  -- GetByKey
  unfoldable pub get_by_key : DeltaFifo V → String → Option (Deltas V)
  get_by_key f id = lookup id f.items

  -- HasSynced
  unfoldable pub has_synced : DeltaFifo V → Bool
  has_synced f = f.populated && f.initial_population_count == 0

  -- Close
  unfoldable pub close : DeltaFifo V → DeltaFifo V
  close f = record f { closed = true; broadcasts = f.broadcasts + 1 }

  -- Pop
  unfoldable pub pop {κ} :
      {E : Type κ} → (Deltas V → Processed E) → DeltaFifo V → DeltaFifo V × PopResult (Deltas V) E
  pop process f = Fifo.pop process f

  module _ (key_func : Obj V → Option String) where
    -- KeyOf, of an object and of a list of deltas.
    unfoldable pub key_of : Obj V → Option String
    key_of nothing = key_func nothing
    key_of (object v) = key_func (object v)
    key_of (deleted_final_state_unknown k o) = some k

    unfoldable pub key_of_deltas : Deltas V → Option String
    key_of_deltas d = elim (newest d) [ none ↦ none | some e ↦ key_of e.obj ]

    -- queueActionLocked
    unfoldable pub queue_action : DeltaFifo V → DeltaType → Obj V → Result V
    queue_action f t o = elim (key_of o) [
      | none ↦ (f, some key_error)
      | some id ↦
          queue_deltas f id
            (dedup_deltas (or_empty (lookup id f.items) ++ record { delta_type = t; obj = o } ∷ []))
    ]

    abbrev populate : DeltaFifo V → DeltaFifo V
    populate f = record f { populated = true }

    -- Add
    unfoldable pub add : DeltaFifo V → Obj V → Result V
    add f o = queue_action (populate f) added o

    -- Update
    unfoldable pub update : DeltaFifo V → Obj V → Result V
    update f o = queue_action (populate f) updated o

    -- AddIfNotPresent, of a list of deltas.
    unfoldable pub add_if_not_present : DeltaFifo V → Deltas V → Result V
    add_if_not_present f d = elim (key_of_deltas d) [
      | none ↦ (f, some key_error)
      | some id ↦ (Fifo.add_if_not_present_by_id f id d, none)
    ]

    -- Whether Delete has nothing to do.
    unfoldable pub unknown_to : Option (Known V) → DeltaFifo V → String → Bool
    unknown_to none f id = if is_some (lookup id f.items) then false else true
    unknown_to (some known) f id = elim (known.get_by_key id) [
      | lookup_failed ↦ false
      | present v ↦ false
      | absent ↦ if is_some (lookup id f.items) then false else true
    ]

    -- Delete
    unfoldable pub delete : Option (Known V) → DeltaFifo V → Obj V → Result V
    delete known f o = elim (key_of o) [
      | none ↦ (f, some key_error)
      | some id ↦
          if unknown_to known f id then (populate f, none) else queue_action (populate f) deleted o
    ]

    -- The first loop of Replace, with the keys so far.
    unfoldable pub replace_loop :
        DeltaType → DeltaFifo V → List (Obj V) → List String → Result V × List String
    replace_loop action f [] seen = ((f, none), seen)
    replace_loop action f (o ∷ l) seen = elim (key_of o) [
      | none ↦ ((f, some key_error), seen)
      | some key ↦
          let (g, err) = queue_action f action o in
          elim err [
            | none ↦ replace_loop action g l (insert seen key)
            | some e ↦ ((g, some cannot_enqueue), insert seen key)
          ]
    ]

    -- The loops of Replace that queue deletions, with how many.
    unfoldable pub delete_loop :
        DeltaFifo V → List (String × Obj V) → List String → ℕ → Result V × ℕ
    delete_loop f [] seen n = ((f, none), n)
    delete_loop f ((k, o) ∷ l) seen n =
        if has seen k
        then delete_loop f l seen n
        else (let (g, err) = queue_action f deleted (deleted_final_state_unknown k o) in
            elim err [ none ↦ delete_loop g l seen (n + 1) | some e ↦ ((g, some e), n + 1) ])

    newest_object : Deltas V → Obj V
    newest_object d = elim (newest d) [ none ↦ nothing | some e ↦ e.obj ]

    found_object : Found V → Obj V
    found_object lookup_failed = nothing
    found_object absent = nothing
    found_object (present v) = object v

    -- The objects that may have been deleted, with their keys.
    unfoldable pub candidates : Option (Known V) → DeltaFifo V → List (String × Obj V)
    unfolding newest_object found_object
    candidates none f = map (λ e. (e.0, newest_object e.1)) f.items
    candidates (some known) f = map (λ k. (k, found_object (known.get_by_key k))) known.list_keys

    count_first : DeltaFifo V → ℕ → DeltaFifo V
    count_first f n =
        if f.populated then f else record f { populated = true; initial_population_count = n }

    -- Replace
    unfoldable pub replace : Bool → Option (Known V) → DeltaFifo V → List (Obj V) → Result V
    unfolding count_first
    replace emit_replaced known f l =
        let ((g, err), seen) = replace_loop (if emit_replaced then replaced else sync) f l [] in
        elim err [
          | some e ↦ (g, some e)
          | none ↦
              let ((h, err'), n) = delete_loop g (candidates known g) seen 0 in
              elim err' [ some e ↦ (h, some e) | none ↦ (count_first h (length seen + n), none) ]
        ]

    -- syncKeyLocked
    unfoldable pub sync_key : DeltaFifo V → Found V → Result V
    sync_key f lookup_failed = (f, none)
    sync_key f absent = (f, none)
    sync_key f (present v) = elim (key_of (object v)) [
      | none ↦ (f, some key_error)
      | some id ↦
          if ltb 0 (length (or_empty (lookup id f.items)))
          then (f, none)
          else (let (g, err) = queue_action f sync (object v) in
              elim err [ none ↦ (g, none) | some e ↦ (g, some cannot_sync) ])
    ]

    unfoldable pub resync_loop : Known V → DeltaFifo V → List String → Result V
    resync_loop known f [] = (f, none)
    resync_loop known f (k ∷ l) =
        let (g, err) = sync_key f (known.get_by_key k) in
        elim err [ none ↦ resync_loop known g l | some e ↦ (g, some e) ]

    -- Resync
    unfoldable pub resync : Option (Known V) → DeltaFifo V → Result V
    resync none f = (f, none)
    resync (some known) f = resync_loop known f known.list_keys
