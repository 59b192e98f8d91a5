-- ===== src/WorkQueue/Queue/Calm.antt =====
-- No sleeper is forgotten.
use flowline.Base.{
  ◌≡◌, refl, ap, true, false, ◌==◌, Bool, List, length, ℕ, ◌+◌, ◌<◌, ◌≤◌, arith, ◌∷◌, [], ◌⊎◌, inl,
  inr, Bool-cases,
}
use flowline.Base.Keys.{Key, has, remove, length-insert}
use flowline.WorkQueue.Queue.{
  Queue, Wake, signal, broadcast, blocked, new_queue, add, get, take_front, get-eq-item, done,
  set_drain, shutdown, drain_waits,
}
use flowline.WorkQueue.Queue.Invariant.{Inv, new_queue-Inv, add-Inv, get-Inv, done-Inv}
use flowline.WorkQueue.Queue.Waiting.{
  Waiting, new_waiting, Woken, stays, nobody, wakes_getter, wakes_drainer, wakes_all,
  wait_for_processing, Turn, adds, gets, get_sleeps, dones, sets_drain, shuts_down, enters_loop,
  sleeps, leaves_loop, Turns, start, turn,
}

-- What the condition variable does, call by call.
pub record Effect {ℓ} {A : Type ℓ} (k : Wake) (w v : Waiting A) : Type ℓ where
  pub same_queue : v.q ≡ w.q
  same_callers : v.testing + v.drainers ≡ w.testing + w.drainers
  fewer_getters : v.getters ≤ w.getters
  fewer_drainers : v.drainers ≤ w.drainers
  last_wakes : k ≡ signal → w.getters ≡ 0 → w.drainers ≤ 1 → v.drainers ≡ 0
  all_wake : k ≡ broadcast → (v.getters ≡ 0) × (v.drainers ≡ 0)

module _ {ℓ} {A : Type ℓ} where
  pub Woken-Effect : (k : Wake) (w v : Waiting A) → Woken k w v → Effect k w v
  Woken-Effect _ w _ stays = record {
    same_queue = refl;
    same_callers = refl;
    fewer_getters = omega arith;
    fewer_drainers = omega arith;
    last_wakes = λ e. absurd cc;
    all_wake = λ e. absurd cc;
  }
  Woken-Effect _ w _ (nobody g d) = record {
    same_queue = refl;
    same_callers = refl;
    fewer_getters = omega arith;
    fewer_drainers = omega arith;
    last_wakes = λ e a b. d;
    all_wake = λ e. absurd cc;
  }
  Woken-Effect _ w _ (wakes_getter g) = record {
    same_queue = refl;
    same_callers = refl;
    fewer_getters = omega arith;
    fewer_drainers = omega arith;
    last_wakes = λ e a b. absurd (omega arith);
    all_wake = λ e. absurd cc;
  }
  Woken-Effect _ w _ (wakes_drainer d) = record {
    same_queue = refl;
    same_callers = omega arith;
    fewer_getters = omega arith;
    fewer_drainers = omega arith;
    last_wakes = λ e a b. omega arith;
    all_wake = λ e. absurd cc;
  }
  Woken-Effect _ w _ wakes_all = record {
    same_queue = refl;
    same_callers = omega arith;
    fewer_getters = omega arith;
    fewer_drainers = omega arith;
    last_wakes = λ e a b. refl;
    all_wake = λ e. (refl, refl);
  }

module _ {ℓ} {A : Type ℓ} ⦃key : Key A⦄ where
  -- Whoever sleeps has somebody to wake it: in Get nobody sleeps after the shutdown, and in
  -- ShutDownWithDrain nobody sleeps when no item is being processed.
  pub record Calm (w : Waiting A) : Type ℓ where
    pub inv : Inv w.q
    pub no_getters : w.q.shutting_down ≡ true → w.getters ≡ 0
    pub drain_closes : 0 < w.testing + w.drainers → w.q.shutting_down ≡ true
    pub one_drain : w.testing + w.drainers ≤ 1
    pub watched : 0 < w.drainers → 0 < length w.q.processing

  get-blocked : (q : Queue A) → get q ≡ blocked → q.shutting_down ≡ false
  unfolding get take_front
  get-blocked q e = split q.queue e
    where
      split : (l : List A) → take_front l q ≡ blocked → q.shutting_down ≡ false
      split [] e = ground arith
      split (x ∷ l) e = absurd cc

  done_wakes :
      (q : Queue A) (x : A) → ((done q x).1 ≡ signal) ⊎ (0 < length (done q x).0.processing)
  unfolding done
  done_wakes q x = elim (Bool-cases (has q.dirty x)) [
    | inl again ↦ inl (rw (done, again) refl)
    | inr clean ↦ elim (Bool-cases (length (remove q.processing x) == 0)) [
      | inl over ↦ inl (rw (done, clean, over) refl)
      | inr busy ↦ inr (ground (arith, clean, busy))
    ]
  ]

  flags-Inv :
      (q : Queue A) (shut should_drain : Bool)
      → Inv q
      → Inv (record q { shutting_down = shut; drain = should_drain })
  flags-Inv q shut should_drain v = record {
    queue_once = v.queue_once;
    dirty_once = v.dirty_once;
    processing_once = v.processing_once;
    queued = v.queued;
  }

  pub Turn-Calm : {w v : Waiting A} {n : ℕ} → Turn 1 w n v → Calm w → Calm v
  unfolding add done set_drain shutdown wait_for_processing drain_waits
  Turn-Calm {w} {v} (adds x t) c =
      let e = Woken-Effect _ _ v t in
      record {
        inv = rw e.same_queue (add-Inv w.q x c.inv);
        no_getters = λ h. ground (arith, c.no_getters, e.same_queue, e.fewer_getters);
        drain_closes = λ h. ground (arith, c.drain_closes, e.same_queue, e.same_callers);
        one_drain = omega (arith, c.one_drain, e.same_callers);
        watched = λ h. ground (arith, c.watched, e.same_queue, e.fewer_drainers);
      }
  Turn-Calm {w} (gets {q' = q'} x g) c =
      let (rest, front, after) = get-eq-item w.q g in
      record {
        inv = get-Inv w.q q' x c.inv g;
        no_getters = λ h. ground (arith, c.no_getters, after);
        drain_closes = λ h. ground (arith, c.drain_closes, after);
        one_drain = c.one_drain;
        watched = λ h. ground (arith, length-insert w.q.processing x, after);
      }
  Turn-Calm {w} (get_sleeps g) c =
      let open_ = get-blocked w.q g in
      record {
        inv = c.inv;
        no_getters = λ h. absurd (ground (arith, h, open_));
        drain_closes = c.drain_closes;
        one_drain = c.one_drain;
        watched = c.watched;
      }
  Turn-Calm {w} {v} (dones x h t) c =
      let e = Woken-Effect _ _ v t in
      record {
        inv = rw e.same_queue (done-Inv w.q x h c.inv);
        no_getters = λ h. ground (arith, c.no_getters, e.same_queue, e.fewer_getters);
        drain_closes = λ h. ground (arith, c.drain_closes, e.same_queue, e.same_callers);
        one_drain = omega (arith, c.one_drain, e.same_callers);
        watched = λ h. elim (done_wakes w.q x) [
          | inr busy ↦ ground (arith, busy, e.same_queue)
          | inl signals ↦
              let some_ : 0 < w.drainers = omega (arith, h, e.fewer_drainers) in
              let closing = c.drain_closes (omega (arith, some_)) in
              let none_left =
                e.last_wakes signals (c.no_getters closing) (omega (arith, c.one_drain)) in
              absurd (omega (arith, h, none_left))
        ];
      }
  Turn-Calm {w} (sets_drain d) c = record {
    inv = flags-Inv w.q w.q.shutting_down d c.inv;
    no_getters = c.no_getters;
    drain_closes = c.drain_closes;
    one_drain = c.one_drain;
    watched = c.watched;
  }
  Turn-Calm {w} {v} (shuts_down t) c =
      let e = Woken-Effect _ _ v t in
      let woken = e.all_wake refl in
      record {
        inv = rw e.same_queue (flags-Inv w.q true w.q.drain c.inv);
        no_getters = λ h. woken.0;
        drain_closes = λ h. ap (λ q. q.shutting_down) e.same_queue;
        one_drain = omega (arith, c.one_drain, e.same_callers);
        watched = λ h. absurd (omega (arith, woken.1, h));
      }
  Turn-Calm {w} (enters_loop closing few) c = record {
    inv = c.inv;
    no_getters = c.no_getters;
    drain_closes = λ h. closing;
    one_drain = omega (arith, few);
    watched = c.watched;
  }
  Turn-Calm {w} (sleeps some_ h) c = record {
    inv = c.inv;
    no_getters = c.no_getters;
    drain_closes = λ h. c.drain_closes (omega (arith, some_));
    one_drain = omega (arith, some_, c.one_drain);
    watched = λ k. ground (arith, h);
  }
  Turn-Calm {w} (leaves_loop some_ h) c = record {
    inv = c.inv;
    no_getters = c.no_getters;
    drain_closes = λ h. c.drain_closes (omega (arith, some_));
    one_drain = omega (arith, c.one_drain);
    watched = c.watched;
  }

  new_waiting-Calm : Calm new_waiting
  unfolding new_queue
  new_waiting-Calm = record {
    inv = new_queue-Inv;
    no_getters = λ h. refl;
    drain_closes = λ h. absurd (omega arith);
    one_drain = omega arith;
    watched = λ h. absurd (omega arith);
  }

  pub Turns-Calm : {w : Waiting A} {n : ℕ} → Turns 1 new_waiting n w → Calm w
  Turns-Calm start = new_waiting-Calm
  Turns-Calm (turn h t) = Turn-Calm t (Turns-Calm h)
