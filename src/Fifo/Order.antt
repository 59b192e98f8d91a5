-- ===== src/Fifo/Order.antt =====
-- Pop: which object it takes.
use Prim.Native.String.{String}
use flowline.Base.{
  ℕ, ◌-◌, ◌≡◌, ap, sym, ◌∙◌, refl, Bool, true, false, All, List, [], ◌∷◌, ◌++◌, none, some, is_some,
  if◌then◌else◌, arith, Option-cases, Bool-cases, inl, inr,
}
use flowline.Base.Keys.{
  text_key, same, has, lookup, erase, lookup-erase, lookup-store, same_refl, same_eq,
}
use flowline.Fifo.{
  Fifo, Processed, fine, failed, requeue, popped, add_if_not_present_by_id, PopResult, blocked,
  fifo_closed, process_item, pop_loop, pop,
}
use flowline.Fifo.Invariant.{Inv}

abbrev pub Missing {ℓ} : {V : Type ℓ} → Fifo V → String → Type ℓ
Missing f id = lookup id f.items ≡ none

module _ {ℓ κ} {V : Type ℓ} {E : Type κ} where
  -- What Pop leaves and returns, once it has taken an object out, by the end of the callback.
  abbrev pub Taken :
      Processed E → Fifo V → List String → String → V → Fifo V × PopResult V E → Type (ℓ ⊔ κ)
  Taken fine f rest id item (g, end) =
      (g.items ≡ erase id f.items) × (g.queue ≡ rest) × (end ≡ popped item none)
  Taken (failed e) f rest id item (g, end) =
      (g.items ≡ erase id f.items) × (g.queue ≡ rest) × (end ≡ popped item (some e))
  Taken (requeue e) f rest id item (g, end) =
      ((k : String) → lookup k g.items ≡ lookup k f.items)
      × (g.queue ≡ rest ++ id ∷ [])
      × (end ≡ popped item e)

  -- How Pop may end, for the ids in the queue. The object that is taken is that of the first id in
  -- the queue that has one.
  pub data PopEnds (process : V → Processed E) (f : Fifo V) (queue : List String)
      : Fifo V × PopResult V E → Type (ℓ ⊔ κ) where
    waits :
        {g : Fifo V}
        → ((id : String) → Missing f id)
        → g.items ≡ f.items
        → f.closed ≡ false
        → PopEnds process f queue (g, blocked)
    ends :
        {g : Fifo V}
        → ((id : String) → Missing f id)
        → g.items ≡ f.items
        → f.closed ≡ true
        → PopEnds process f queue (g, fifo_closed)
    takes :
        {r : Fifo V × PopResult V E} (skipped rest : List String) (id : String) (item : V)
        → queue ≡ skipped ++ id ∷ rest
        → All (Missing f) skipped
        → lookup id f.items ≡ some item
        → Taken (process item) f rest id item r
        → PopEnds process f queue r

  module _ (process : V → Processed E) where
    Taken-same :
        (end : Processed E) (f : Fifo V) (n : ℕ) (queue rest : List String) (id : String) (item : V)
        (r : Fifo V × PopResult V E)
        → Taken end (record f { queue = queue; initial_population_count = n }) rest id item r
        → Taken end f rest id item r
    Taken-same fine f n queue rest id item r taken = taken
    Taken-same (failed e) f n queue rest id item r taken = taken
    Taken-same (requeue e) f n queue rest id item r taken = taken

    skip :
        (f : Fifo V) (n : ℕ) (id : String) (queue : List String) (r : Fifo V × PopResult V E)
        → Missing f id
        → PopEnds process (record f { queue = queue; initial_population_count = n }) queue r
        → PopEnds process f (id ∷ queue) r
    skip f n id queue r missing (waits gone same_items open_) = waits gone same_items open_
    skip f n id queue r missing (ends gone same_items shut) = ends gone same_items shut
    skip f n id queue r missing (takes skipped rest k item split absent there taken) =
        takes (id ∷ skipped) rest k item (ap (λ l. id ∷ l) split) (missing, absent) there
          (Taken-same (process item) f n queue rest k item r taken)

    process_item-Taken :
        (f : Fifo V) (n : ℕ) (rest : List String) (id : String) (item : V) (end : Processed E)
        → lookup id f.items ≡ some item
        → Taken end f rest id item (
            process_item end
              (record f { queue = rest; initial_population_count = n; items = erase id f.items })
              id
              item)
    unfolding process_item add_if_not_present_by_id
    process_item-Taken f n rest id item fine there = (refl, refl, refl)
    process_item-Taken f n rest id item (failed e) there = (refl, refl, refl)
    process_item-Taken f n rest id item (requeue e) there =
        let out : lookup id (erase id f.items) ≡ none =
          ground (arith, lookup-erase id id f.items, same_refl id) in
        rw (add_if_not_present_by_id, out)
          (
            λ k. elim (Bool-cases (same id k)) [
              | inl own ↦
                  let kept : some item ≡ lookup k f.items =
                    sym there ∙ ap (λ j. lookup j f.items) (same_eq id k own) in
                  ground (arith, lookup-store id k item (erase id f.items), own, kept)
              | inr other ↦ ground (
                arith,
                lookup-store id k item (erase id f.items),
                lookup-erase id k f.items,
                other,
              )
            ],
            refl,
            refl,
          )

    ended :
        (f : Fifo V) (b : Bool)
        → ((id : String) → Missing f id)
        → f.closed ≡ b
        → PopEnds process f [] (record f { queue = [] }, if b then fifo_closed else blocked)
    ended f true gone e = ends gone refl e
    ended f false gone e = waits gone refl e

    pop_loop_ends :
        (f : Fifo V) (queue : List String)
        → ((id : String) → is_some (lookup id f.items) ≡ true → has queue id ≡ true)
        → PopEnds process f queue (pop_loop process f queue)
    unfolding pop_loop has
    pop_loop_ends f [] listed = ended f f.closed (λ id. ground (arith, listed id)) refl
    pop_loop_ends f (id ∷ queue) listed =
        let taken = record f {
          queue = queue;
          initial_population_count = f.initial_population_count - 1;
        } in
        elim (Option-cases (lookup id f.items)) [
          | inl missing ↦
              rw (missing, pop_loop)
                (skip f (f.initial_population_count - 1) id queue _ missing
                  (pop_loop_ends taken queue (λ j h. ground (arith, listed j))))
          | inr (item, there) ↦
              rw (there, pop_loop)
                (takes [] queue id item refl tt there (
                  process_item-Taken f (f.initial_population_count - 1) queue id item (process item)
                    there))
        ]

    -- Pop of a FIFO in which every id with an object is in the queue takes the object of the first id
    -- in the queue that has one, and skips the ids before it. The object is gone and returned with the
    -- callback's error, unless the callback asks for a requeue: then the objects are as before, and the
    -- id is the last in the queue. Only if there is no object at all does it wait, or end if the FIFO is closed.
    pub pop_takes_first : (f : Fifo V) → Inv f → PopEnds process f f.queue (pop process f)
    unfolding pop
    pop_takes_first f v = pop_loop_ends f f.queue v.queued
