-- ===== src/WorkQueue/Queue.antt =====
-- pkg/util/workqueue/queue.go: `Type`, its set helpers and its methods. Each method runs under the
-- queue's lock, so a call is one step on the state; beside the new state it yields what it does to
-- the condition variable. A Get that finds nothing reports `blocked`; the callers that sleep, and their
-- wake-ups, are in Waiting.
pub mod Status
pub mod Invariant
pub mod Order
pub mod Drain
pub mod Waiting
pub mod Calm
mod Tests
use flowline.Base.{
  ◌≡◌, ◌≢◌, Bool, true, false, ◌&&◌, not, List, [], ◌∷◌, ◌++◌, length, ℕ, ◌==◌, if◌then◌else◌, refl,
  arith,
}
use flowline.Base.Keys.{Key, has, insert, remove}

pub record Queue {ℓ} (A : Type ℓ) : Type ℓ where
  pub queue : List A
  pub dirty : List A
  pub processing : List A
  pub shutting_down : Bool
  pub drain : Bool

-- What a call does to the condition variable: nothing, Signal or Broadcast.
pub data Wake : Type 0 where
  quiet signal broadcast : Wake

-- How an attempt of Get ends.
pub data Got {ℓ} (A : Type ℓ) : Type ℓ where
  blocked : Got A
  closed : Got A
  item : A → Queue A → Got A

-- `newQueue`, without the clock and the metrics loop.
unfoldable pub new_queue {ℓ} : {A : Type ℓ} → Queue A
new_queue = record { queue = []; dirty = []; processing = []; shutting_down = false; drain = false }

module _ {ℓ} {A : Type ℓ} ⦃key : Key A⦄ where
  unfoldable pub add : Queue A → A → Queue A × Wake
  add q x =
      if q.shutting_down
      then (q, quiet)
      else if has q.dirty x
      then (q, quiet)
      else let marked = record q { dirty = insert q.dirty x } in
        if has q.processing x
        then (marked, quiet)
        else (record marked { queue = q.queue ++ x ∷ [] }, signal)

  -- The queue after Get has handed out its front.
  abbrev pub handed : Queue A → A → List A → Queue A
  handed q x rest = record q {
    queue = rest;
    processing = insert q.processing x;
    dirty = remove q.dirty x;
  }

  take_front : List A → Queue A → Got A
  take_front [] q = if q.shutting_down then closed else blocked
  take_front (x ∷ rest) q = item x (handed q x rest)

  unfoldable pub get : Queue A → Got A
  unfolding take_front
  get q = take_front q.queue q

  -- Get hands out the front of the queue.
  pub get-eq-item :
      (q : Queue A) {q' : Queue A} {x : A}
      → get q ≡ item x q'
      → (rest : List A) × (q.queue ≡ x ∷ rest) × (q' ≡ handed q x rest)
  unfolding get
  get-eq-item q {q'} {x} e = split q.queue refl e
    where
      split :
          (l : List A)
          → q.queue ≡ l
          → take_front l q ≡ item x q'
          → (rest : List A) × (q.queue ≡ x ∷ rest) × (q' ≡ handed q x rest)
      split [] p e = absurd (ground arith)
      split (y ∷ rest) p e = (rest, ground arith, ground arith)

  unfoldable pub done : Queue A → A → Queue A × Wake
  done q x =
      let finished = record q { processing = remove q.processing x } in
      if has q.dirty x
      then (record finished { queue = q.queue ++ x ∷ [] }, signal)
      else if length finished.processing == 0
      then (finished, signal)
      else (finished, quiet)

  unfoldable pub set_drain : Queue A → Bool → Queue A
  set_drain q should_drain = record q { drain = should_drain }

  unfoldable pub shutdown : Queue A → Queue A × Wake
  shutdown q = (record q { shutting_down = true }, broadcast)

  unfoldable pub is_processing : Queue A → Bool
  is_processing q = not (length q.processing == 0)

  -- ShutDown
  unfoldable pub shut_down : Queue A → Queue A
  unfolding set_drain shutdown
  shut_down q = (shutdown (set_drain q false)).0

  -- The part of ShutDownWithDrain in front of its loop.
  unfoldable pub begin_drain : Queue A → Queue A
  unfolding set_drain shutdown
  begin_drain q = (shutdown (set_drain q true)).0

  -- The test of the loop of ShutDownWithDrain: whether the caller goes on waiting.
  unfoldable pub drain_waits : Queue A → Bool
  unfolding is_processing
  drain_waits q = is_processing q && q.drain

  -- What the users of a queue may do, with the items that a call hands out. A worker calls Done
  -- for an item that it was handed.
  pub data Step : Queue A → List A → Queue A → Type ℓ where
    adds : {q : Queue A} (x : A) → Step q [] (add q x).0
    gets : {q q' : Queue A} (x : A) → get q ≡ item x q' → Step q (x ∷ []) q'
    dones : {q : Queue A} (x : A) → has q.processing x ≡ true → Step q [] (done q x).0
    shuts : {q : Queue A} → Step q [] (shut_down q)
    drains : {q : Queue A} → Step q [] (begin_drain q)

  -- A history of calls, with all that it handed out.
  pub data Reach (s : Queue A) : List A → Queue A → Type ℓ where
    here : Reach s [] s
    next :
        {q q' : Queue A} {out now : List A}
        → Reach s out q
        → Step q now q'
        → Reach s (out ++ now) q'
