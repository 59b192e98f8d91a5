-- ===== src/WorkQueue/Queue/Invariant.antt =====
-- The invariant that the comments on the fields of `Type` state, over every history of calls.
use flowline.Base.{◌≡◌, refl, true, ◌&&◌, not, List, [], ◌∷◌, arith}
use flowline.Base.Keys.{
  Key, has, Distinct, has-append, has-insert, has-remove, insert-Distinct, remove-Distinct,
  append_new-Distinct,
}
use flowline.WorkQueue.Queue.{
  Queue, item, new_queue, add, handed, get, get-eq-item, done, shut_down, begin_drain, Step, adds,
  gets, dones, shuts, drains, Reach, here, next,
}

module _ {ℓ} {A : Type ℓ} ⦃key : Key A⦄ where
  -- The queue holds, once each, exactly the dirty items that nobody is processing.
  pub record Inv (q : Queue A) : Type ℓ where
    pub queue_once : Distinct q.queue
    pub dirty_once : Distinct q.dirty
    pub processing_once : Distinct q.processing
    pub queued : (x : A) → has q.queue x ≡ has q.dirty x && not (has q.processing x)

  pub new_queue-Inv : Inv new_queue
  unfolding new_queue has
  new_queue-Inv = record {
    queue_once = tt;
    dirty_once = tt;
    processing_once = tt;
    queued = λ x. refl;
  }

  pub add-Inv : (q : Queue A) (x : A) → Inv q → Inv (add q x).0
  unfolding add has
  add-Inv q x v = record {
    queue_once =
        ground (arith, v.queued x, append_new-Distinct q.queue x v.queue_once, v.queue_once);
    dirty_once = ground (arith, insert-Distinct q.dirty x v.dirty_once, v.dirty_once);
    processing_once = ground (arith, v.processing_once);
    queued = λ y. ground (arith, v.queued y, has-append q.queue (x ∷ []) y, has-insert q.dirty x y);
  }

  handed-Inv :
      (q : Queue A) (x : A) (rest : List A) → q.queue ≡ x ∷ rest → Inv q → Inv (handed q x rest)
  unfolding has
  handed-Inv q x rest e v =
      let once : Distinct (x ∷ rest) = rw e at v.queue_once in
      record {
        queue_once = once.1;
        dirty_once = remove-Distinct q.dirty x v.dirty_once;
        processing_once = insert-Distinct q.processing x v.processing_once;
        queued = λ y. ground (
          arith,
          v.queued y,
          has-insert q.processing x y,
          has-remove q.dirty x y,
          once.0,
          once,
          e,
        );
      }

  pub get-Inv : (q q' : Queue A) (x : A) → Inv q → get q ≡ item x q' → Inv q'
  get-Inv q q' x v e =
      let (rest, front, after) = get-eq-item q e in rw after (handed-Inv q x rest front v)

  pub done-Inv : (q : Queue A) (x : A) → has q.processing x ≡ true → Inv q → Inv (done q x).0
  unfolding done has
  done-Inv q x h v = record {
    queue_once =
        ground (arith, v.queued x, append_new-Distinct q.queue x v.queue_once, v.queue_once);
    dirty_once = ground (arith, v.dirty_once);
    processing_once = ground (arith, remove-Distinct q.processing x v.processing_once);
    queued =
        λ y. ground (arith, v.queued y, has-append q.queue (x ∷ []) y, has-remove q.processing x y);
  }

  pub Step-Inv : {q q' : Queue A} {now : List A} → Step q now q' → Inv q → Inv q'
  unfolding shut_down begin_drain
  Step-Inv (adds x) v = add-Inv _ x v
  Step-Inv (gets x e) v = get-Inv _ _ x v e
  Step-Inv (dones x h) v = done-Inv _ x h v
  Step-Inv shuts v = ground arith
  Step-Inv drains v = ground arith

  -- In every state that calls lead to from a new queue, the queue holds exactly the dirty items
  -- that are not being processed, and no item twice.
  pub Reach-Inv : {q : Queue A} {out : List A} → Reach new_queue out q → Inv q
  Reach-Inv here = new_queue-Inv
  Reach-Inv (next r s) = Step-Inv s (Reach-Inv r)
