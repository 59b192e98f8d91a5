-- ===== src/WorkQueue/Queue/Order.antt =====
-- The order in which items are handed out.
use flowline.Base.{◌≡◌, sym, ◌∙◌, ap, List, [], ◌∷◌, ◌++◌, if◌then◌else◌, arith}
use mathlib.Core.List.{append-nil, append_assoc}
use flowline.Base.Keys.{Key, has}
use flowline.WorkQueue.Queue.{
  Queue, add, get-eq-item, done, shut_down, begin_drain, Step, adds, gets, dones, shuts, drains,
  Reach, here, next,
}

module _ {ℓ} {A : Type ℓ} ⦃key : Key A⦄ where
  -- A call takes from the front of the queue and puts to its end.
  Step-order :
      {q q' : Queue A} {now : List A}
      → Step q now q'
      → (new : List A) × (now ++ q'.queue ≡ q.queue ++ new)
  unfolding add done shut_down begin_drain
  Step-order {q} (adds x) = (
    if q.shutting_down
        then []
        else if has q.dirty x
        then []
        else if has q.processing x
        then []
        else x ∷ [],
    ground (arith, append-nil q.queue),
  )
  Step-order {q} (gets x e) =
      let (rest, front, after) = get-eq-item q e in ([], ground (arith, append-nil q.queue))
  Step-order {q} (dones x h) =
      (if has q.dirty x then x ∷ [] else [], ground (arith, append-nil q.queue))
  Step-order {q} shuts = ([], sym (append-nil q.queue))
  Step-order {q} drains = ([], sym (append-nil q.queue))

  -- Items are handed out in the order in which they entered the queue: over any history the items
  -- handed out, followed by those still in the queue, are those that stood in the queue at the
  -- start, followed by the later ones.
  pub Reach-order :
      {s q : Queue A} {out : List A}
      → Reach s out q
      → (new : List A) × (out ++ q.queue ≡ s.queue ++ new)
  Reach-order {s} here = ([], sym (append-nil s.queue))
  Reach-order {s} {q} (next {q = p} {out = out} {now = now} r t) =
      let (new, before) = Reach-order r in
      let (more, step) = Step-order t in
      (
        new ++ more,
        append_assoc out now q.queue
            ∙ ap (◌++◌ out) step
            ∙ sym (append_assoc out p.queue more)
            ∙ ap (λ l. l ++ more) before
            ∙ append_assoc s.queue new more,
      )
