-- ===== src/WorkQueue/Queue/Tests.antt =====
-- The work queue at concrete inputs.
use flowline.Base.{
  ◌+◌, arith, ℕ_discrete, ℕ, ◌≡◌, ◌⊎◌, refl, true, false, List, [], ◌∷◌, ◌++◌, if◌then◌else◌,
}
use flowline.Base.Keys.{nat_key, same, has, insert, remove}
use flowline.WorkQueue.Queue.{
  set_drain, shutdown, Queue, new_queue, add, get, item, closed, done, begin_drain, shut_down,
  drain_waits, Reach, here, next, adds, gets,
}
use flowline.WorkQueue.Queue.Invariant.{Inv, Reach-Inv}
use flowline.WorkQueue.Queue.Status.{running, queued, status, status-add, status-get, status-done}
use flowline.WorkQueue.Queue.Order.{Reach-order}
use flowline.WorkQueue.Queue.Drain.{work, drains_out}
use flowline.WorkQueue.Queue.Waiting
use flowline.WorkQueue.Queue.Waiting.{
  Waiting, new_waiting, nobody, stays, wakes_all, wakes_drainer, wait_for_processing, Turns, start,
  turn, sets_drain, shuts_down, enters_loop, sleeps,
}
use flowline.WorkQueue.Queue.Calm.{Calm}

-- Items 1 and 2 were added, 1 is being processed and was added again.
abbrev busy : Queue ℕ
busy = record {
  queue = 2 ∷ [];
  dirty = 2 ∷ 1 ∷ [];
  processing = 1 ∷ [];
  shutting_down = false;
  drain = false;
}

abbrev closing : Queue ℕ
closing = record busy { shutting_down = true; drain = true }

program : Unit {0}
unfolding new_queue add get done shut_down begin_drain drain_waits set_drain shutdown
    wait_for_processing has insert remove ℕ_discrete
program = tt

busy-Reach : Reach new_queue (1 ∷ []) busy
unfolding program
busy-Reach = next (next (next (next here (adds 1)) (adds 2)) (gets 1 refl)) (adds 1)

done-busy : (done busy 1).0.queue ≡ 2 ∷ 1 ∷ []
unfolding program
done-busy = refl

Reach-Inv_example : Inv busy
Reach-Inv_example = Reach-Inv busy-Reach

Reach-order_example : (new : List ℕ) × (1 ∷ 2 ∷ [] ≡ new_queue.queue ++ new)
Reach-order_example = Reach-order busy-Reach

status-add_example : status (add busy 1).0 2 ≡ queued
unfolding program
status-add_example = status-add busy 1 2 (Reach-Inv busy-Reach)

status-get_example :
    (status busy 2 ≡ queued)
    × ((y : ℕ)
        → status (record busy { queue = []; dirty = 1 ∷ []; processing = 1 ∷ 2 ∷ [] }) y
          ≡ (if same 2 y then running else status busy y))
unfolding program
status-get_example = status-get busy (Reach-Inv busy-Reach) refl

status-done_example : status (done busy 1).0 1 ≡ queued
unfolding program
status-done_example = status-done busy 1 1 (Reach-Inv busy-Reach)

-- The same history, and then ShutDownWithDrain up to its sleep.
draining : Turns 1 new_waiting 1 (record { q = closing; getters = 0; drainers = 1; testing = 0 })
unfolding program
draining =
    turn
      (turn
        (turn
          (turn
            (turn
              (turn
                (turn (turn start (Waiting.adds 1 (nobody refl refl)))
                  (Waiting.adds 2 (nobody refl refl)))
                (Waiting.gets 1 refl))
              (Waiting.adds 1 stays))
            (sets_drain true))
          (shuts_down wakes_all))
        (enters_loop refl (omega arith)))
      (sleeps (omega arith) refl)

-- Then the other item is handed out.
abbrev later : Waiting ℕ
later = record {
  q = record closing { queue = []; dirty = 1 ∷ []; processing = 1 ∷ 2 ∷ [] };
  getters = 0;
  drainers = 1;
  testing = 0;
}

handing : Turns 1 (record { q = closing; getters = 0; drainers = 1; testing = 0 }) 1 later
unfolding program
handing = turn start (Waiting.gets 2 refl)

drains_out_example :
    (1 + work later.q ≡ work closing)
    × (((x : ℕ) × (q' : Queue ℕ) × (get later.q ≡ item x q'))
        ⊎ ((x : ℕ) × (has later.q.processing x ≡ true))
        ⊎ ((work later.q ≡ 0)
            × (get later.q ≡ closed)
            × (later.getters ≡ 0)
            × (later.drainers ≡ 0)
            × (drain_waits later.q ≡ false)))
drains_out_example = drains_out draining refl handing

-- Two callers of ShutDownWithDrain sleep, and the last Done wakes one: the other one sleeps on, with
-- nothing left to do.
abbrev forgotten : Waiting ℕ
forgotten = record {
  q = record { queue = []; dirty = []; processing = []; shutting_down = true; drain = true };
  getters = 0;
  drainers = 1;
  testing = 1;
}

two_drainers : Turns 2 new_waiting 2 forgotten
unfolding program
two_drainers =
    turn
      (turn
        (turn
          (turn
            (turn
              (turn
                (turn (turn (turn start (Waiting.adds 1 (nobody refl refl))) (Waiting.gets 1 refl))
                  (sets_drain true))
                (shuts_down wakes_all))
              (enters_loop refl (omega arith)))
            (enters_loop refl (omega arith)))
          (sleeps (omega arith) refl))
        (sleeps (omega arith) refl))
      (Waiting.dones 1 refl (wakes_drainer (omega arith)))

-- ShutDownWithDrain does not wait for the items in the queue if none is being processed.
ignores_queue : drain_waits (begin_drain (add (new_queue {A = ℕ}) 1).0) ≡ false
unfolding program
ignores_queue = refl
