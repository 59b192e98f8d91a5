-- ===== src/WorkQueue/Queue/Status.antt =====
-- The queue seen item by item: an item is idle, waits in the queue, is processed, or is processed
-- and has been added again since. An item is `torn` if the queue and the two sets do not go together.
-- The methods of `Type` move the one item that they name.
use flowline.Base.{◌≡◌, ◌≢◌, if◌then◌else◌, arith, [], ◌∷◌}
use flowline.Base.Keys.{Key, same, has, has-append, has-insert, has-remove}
use flowline.WorkQueue.Queue.{Queue, item, add, get, get-eq-item, done}
use flowline.WorkQueue.Queue.Invariant.{Inv}

pub data Status : Type 0 where
  idle queued running again torn : Status

-- What Add, Get and Done do to the item that they name.
abbrev pub on_add : Status → Status
on_add idle = queued
on_add running = again
on_add queued = queued
on_add again = again
on_add torn = torn

abbrev pub on_done : Status → Status
on_done running = idle
on_done again = queued
on_done idle = idle
on_done queued = queued
on_done torn = torn

module _ {ℓ} {A : Type ℓ} ⦃key : Key A⦄ where
  abbrev pub status : Queue A → A → Status
  status q x =
      if has q.queue x
      then (if has q.processing x then torn else if has q.dirty x then queued else torn)
      else if has q.processing x
      then (if has q.dirty x then again else running)
      else (if has q.dirty x then torn else idle)

  -- In a queue that keeps the invariant, no item is torn.
  pub whole : (q : Queue A) (x : A) → Inv q → status q x ≢ torn
  whole q x v = λ e. ground (arith, v.queued x, e)

  -- In a queue that keeps the invariant, Add puts an idle item into the queue and marks a processed
  -- item as added again; it leaves every other item alone, and after the shutdown all items.
  pub status-add :
      (q : Queue A) (x y : A)
      → Inv q
      → status (add q x).0 y ≡ (
          if same x y
          then (if q.shutting_down then status q y else on_add (status q y))
          else status q y)
  unfolding add has
  status-add q x y v =
      ground (arith, v.queued x, v.queued y, has-insert q.dirty x y, has-append q.queue (x ∷ []) y)

  -- Get hands out an item that waited in the queue, which nobody was processing, and marks it as
  -- processed; it leaves every other item alone.
  pub status-get :
      (q : Queue A) {q' : Queue A} {x : A}
      → Inv q
      → get q ≡ item x q'
      → (status q x ≡ queued) × ((y : A) → status q' y ≡ (if same x y then running else status q y))
  unfolding has
  status-get q {q'} {x} v e =
      let (rest, front, after) = get-eq-item q e in
      (
        ground (arith, v.queued x),
        λ y. ground (arith, has-insert q.processing x y, has-remove q.dirty x y),
      )

  -- In a queue that keeps the invariant, Done makes a processed item idle, or puts it back into the
  -- queue if it was added again in the meantime; it leaves every other item alone.
  pub status-done :
      (q : Queue A) (x y : A)
      → Inv q
      → status (done q x).0 y ≡ (if same x y then on_done (status q y) else status q y)
  unfolding done has
  status-done q x y v =
      ground
        (arith, v.queued x, v.queued y, has-remove q.processing x y, has-append q.queue (x ∷ []) y)
