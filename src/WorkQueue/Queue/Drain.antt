-- ===== src/WorkQueue/Queue/Drain.antt =====
-- What is left to do after a shutdown.
use flowline.Base.{
  ◌≡◌, refl, true, false, List, [], ◌∷◌, length, ℕ, ◌+◌, ◌*◌, ◌<◌, ◌⊎◌, inl, inr, arith,
}
use flowline.Base.Keys.{Key, has, length-insert, length-remove}
use flowline.WorkQueue.Queue.{
  Queue, closed, item, add, take_front, get, get-eq-item, done, drain_waits, set_drain, shutdown,
}
use flowline.WorkQueue.Queue.Invariant.{Inv}
use flowline.WorkQueue.Queue.Waiting.{
  Waiting, new_waiting, Turn, adds, gets, get_sleeps, dones, sets_drain, shuts_down, enters_loop,
  sleeps, leaves_loop, Turns, start, turn,
}
use flowline.WorkQueue.Queue.Calm.{Woken-Effect, Calm, Turn-Calm, Turns-Calm}

module _ {ℓ} {A : Type ℓ} ⦃key : Key A⦄ where
  -- A Get and a Done for each dirty item, and a Done for each processed one.
  abbrev pub work : Queue A → ℕ
  work q = 2 * length q.dirty + length q.processing

  -- After the shutdown each Get and each Done takes one from the work that is left, and an Add
  -- changes nothing.
  work_falls :
      (q : Queue A)
      → Inv q
      → q.shutting_down ≡ true
      → ((x : A) → (add q x).0 ≡ q)
        × ((x : A) (q' : Queue A) → get q ≡ item x q' → work q' + 1 ≡ work q)
        × ((x : A) → has q.processing x ≡ true → work (done q x).0 + 1 ≡ work q)
  unfolding add done has
  work_falls q v closing = (
    λ x. ground arith,
    λ x q' e.
        let (rest, front, after) = get-eq-item q e in
        ground
          (arith, v.queued x, length-remove q.dirty x v.dirty_once, length-insert q.processing x),
    λ x h. ground (arith, length-remove q.processing x v.processing_once),
  )

  Turn-work :
      {w v : Waiting A} {k : ℕ}
      → Turn 1 w k v
      → Calm w
      → w.q.shutting_down ≡ true
      → (v.q.shutting_down ≡ true) × (k + work v.q ≡ work w.q)
  unfolding done set_drain shutdown
  Turn-work {w} (adds x t) c closing =
      rw ((Woken-Effect _ _ _ t).same_queue, (work_falls w.q c.inv closing).0 x)
        (closing, omega arith)
  Turn-work {w} (gets x g) c closing =
      let (rest, front, after) = get-eq-item w.q g in
      (ground arith, omega (arith, (work_falls w.q c.inv closing).1 x _ g))
  Turn-work (get_sleeps g) c closing = (closing, omega arith)
  Turn-work {w} (dones x h t) c closing =
      rw ((Woken-Effect _ _ _ t).same_queue)
        (ground arith, omega (arith, (work_falls w.q c.inv closing).2 x h))
  Turn-work (sets_drain d) c closing = (closing, omega arith)
  Turn-work (shuts_down t) c closing = rw ((Woken-Effect _ _ _ t).same_queue) (refl, omega arith)
  Turn-work (enters_loop h few) c closing = (closing, omega arith)
  Turn-work (sleeps some_ h) c closing = (closing, omega arith)
  Turn-work (leaves_loop some_ h) c closing = (closing, omega arith)

  Turns-work :
      {s w : Waiting A} {n : ℕ}
      → Calm s
      → s.q.shutting_down ≡ true
      → Turns 1 s n w
      → Calm w × (w.q.shutting_down ≡ true) × (n + work w.q ≡ work s.q)
  Turns-work c closing start = (c, closing, omega arith)
  Turns-work c closing (turn h t) =
      let (c', closing', left) = Turns-work c closing h in
      let (closing'', step) = Turn-work t c' closing' in
      (Turn-Calm t c', closing'', omega (arith, left, step))

  nobody_left : (w : Waiting A) → Calm w → work w.q ≡ 0 → w.drainers ≡ 0
  nobody_left w c over = ground (arith, c.watched)

  some_member : (l : List A) → 0 < length l → (x : A) × (has l x ≡ true)
  unfolding has
  some_member [] h = absurd (omega arith)
  some_member (x ∷ l) h = (x, ground arith)

  -- With an empty queue, an item is processed or all work is done.
  processed-or :
      (q : Queue A) (processing dirty : List A)
      → q.queue ≡ []
      → q.processing ≡ processing
      → q.dirty ≡ dirty
      → Inv q
      → ((x : A) × (has q.processing x ≡ true)) ⊎ ((work q ≡ 0) × (drain_waits q ≡ false))
  unfolding drain_waits has
  processed-or q (x ∷ l) dirty e p d v = inl (x, ground arith)
  processed-or q [] [] e p d v = inr (ground arith, ground arith)
  processed-or q [] (y ∷ l) e p d v = absurd (ground (arith, v.queued y))

  take_front-or :
      (q : Queue A) (l : List A)
      → q.queue ≡ l
      → Inv q
      → q.shutting_down ≡ true
      → ((x : A) × (q' : Queue A) × (take_front l q ≡ item x q'))
        ⊎ ((x : A) × (has q.processing x ≡ true))
        ⊎ ((work q ≡ 0) × (take_front l q ≡ closed) × (drain_waits q ≡ false))
  unfolding take_front
  take_front-or q (x ∷ l) e v c = inl (x, _, refl)
  take_front-or q [] e v c = elim (processed-or q q.processing q.dirty e refl refl v) [
    | inl busy ↦ inr (inl busy)
    | inr (over, free) ↦ inr (inr (over, ground arith, free))
  ]

  -- From any state that turns lead to from a new queue, with at most one caller in the loop of
  -- ShutDownWithDrain at a time, and in which the queue is shut down: the number of Gets that hand out
  -- an item and of Dones is the work at the start, less what is left. The workers can always go on: Get
  -- hands out an item, or an item is being processed, or no work is left. Then Get says that the queue
  -- is closed, nobody sleeps in Get or in ShutDownWithDrain, and the loop of the latter ends.
  pub drains_out :
      {s w : Waiting A} {m n : ℕ}
      → Turns 1 new_waiting m s
      → s.q.shutting_down ≡ true
      → Turns 1 s n w
      → (n + work w.q ≡ work s.q)
        × (((x : A) × (q' : Queue A) × (get w.q ≡ item x q'))
            ⊎ ((x : A) × (has w.q.processing x ≡ true))
            ⊎ ((work w.q ≡ 0)
                × (get w.q ≡ closed)
                × (w.getters ≡ 0)
                × (w.drainers ≡ 0)
                × (drain_waits w.q ≡ false)))
  unfolding get
  drains_out {w = w} before closing h =
      let (c, closing', e) = Turns-work (Turns-Calm before) closing h in
      (
        e,
        elim (take_front-or w.q w.q.queue refl c.inv closing') [
          | inl hands ↦ inl hands
          | inr (inl busy) ↦ inr (inl busy)
          | inr (inr (over, ends, free)) ↦
              inr (inr (over, ends, c.no_getters closing', nobody_left w c over, free))
        ],
      )
