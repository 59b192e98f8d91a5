-- ===== src/WorkQueue/Queue/Waiting.antt =====
-- The callers that sleep on the condition variable of the queue, in Get and in ShutDownWithDrain, and
-- their wake-ups. Each section under the queue's lock is a step, in any order. A signal wakes one
-- sleeper, whichever, and a broadcast all.
use flowline.Base.{◌≡◌, true, false, ◌==◌, not, Bool, length, ℕ, ◌+◌, ◌-◌, ◌<◌}
use flowline.Base.Keys.{Key, has}
use flowline.WorkQueue.Queue.{
  Queue, Wake, quiet, signal, broadcast, item, blocked, new_queue, add, get, done, set_drain,
  shutdown, drain_waits,
}

-- A queue with the callers that sleep in Get, those that sleep in waitForProcessing, and those that are
-- in the loop of ShutDownWithDrain and awake.
pub record Waiting {ℓ} (A : Type ℓ) : Type ℓ where
  pub q : Queue A
  pub getters : ℕ
  pub drainers : ℕ
  pub testing : ℕ

abbrev pub new_waiting {ℓ} : {A : Type ℓ} → Waiting A
new_waiting = record { q = new_queue; getters = 0; drainers = 0; testing = 0 }

-- What a call on the condition variable does to the sleepers.
pub data Woken {ℓ} {A : Type ℓ} : Wake → Waiting A → Waiting A → Type ℓ where
  stays : {w : Waiting A} → Woken quiet w w
  nobody : {w : Waiting A} → w.getters ≡ 0 → w.drainers ≡ 0 → Woken signal w w
  wakes_getter :
      {w : Waiting A} → 0 < w.getters → Woken signal w (record w { getters = w.getters - 1 })
  wakes_drainer :
      {w : Waiting A}
      → 0 < w.drainers
      → Woken signal w (record w { drainers = w.drainers - 1; testing = w.testing + 1 })
  wakes_all :
      {w : Waiting A}
      → Woken broadcast w (record w { getters = 0; drainers = 0; testing = w.testing + w.drainers })

module _ {ℓ} {A : Type ℓ} ⦃key : Key A⦄ where
  -- waitForProcessing: whether it sleeps.
  unfoldable pub wait_for_processing : Queue A → Bool
  wait_for_processing q = not (length q.processing == 0)

  -- A section under the lock, with at most `limit` callers in the loop of ShutDownWithDrain at a time.
  -- The number counts the Gets that hand out an item, and the Dones.
  pub data Turn (limit : ℕ) : Waiting A → ℕ → Waiting A → Type ℓ where
    adds :
        {w v : Waiting A} (x : A)
        → Woken (add w.q x).1 (record w { q = (add w.q x).0 }) v
        → Turn limit w 0 v
    gets :
        {w : Waiting A} {q' : Queue A} (x : A)
        → get w.q ≡ item x q'
        → Turn limit w 1 (record w { q = q' })
    get_sleeps :
        {w : Waiting A} → get w.q ≡ blocked → Turn limit w 0 (record w { getters = w.getters + 1 })
    dones :
        {w v : Waiting A} (x : A)
        → has w.q.processing x ≡ true
        → Woken (done w.q x).1 (record w { q = (done w.q x).0 }) v
        → Turn limit w 1 v
    sets_drain :
        {w : Waiting A} (should_drain : Bool)
        → Turn limit w 0 (record w { q = set_drain w.q should_drain })
    shuts_down :
        {w v : Waiting A}
        → Woken (shutdown w.q).1 (record w { q = (shutdown w.q).0 }) v
        → Turn limit w 0 v
    enters_loop :
        {w : Waiting A}
        → w.q.shutting_down ≡ true
        → w.testing + w.drainers < limit
        → Turn limit w 0 (record w { testing = w.testing + 1 })
    sleeps :
        {w : Waiting A}
        → 0 < w.testing
        → wait_for_processing w.q ≡ true
        → Turn limit w 0 (record w { testing = w.testing - 1; drainers = w.drainers + 1 })
    leaves_loop :
        {w : Waiting A}
        → 0 < w.testing
        → drain_waits w.q ≡ false
        → Turn limit w 0 (record w { testing = w.testing - 1 })

  -- A history of turns.
  pub data Turns (limit : ℕ) (s : Waiting A) : ℕ → Waiting A → Type ℓ where
    start : Turns limit s 0 s
    turn :
        {w v : Waiting A} {n k : ℕ} → Turns limit s n w → Turn limit w k v → Turns limit s (n + k) v
