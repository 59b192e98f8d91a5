-- ===== src/Scheduler/Cache/Pointers/Moves.antt =====
-- What the moves of an item do to the list.
use Prim.Native.String.{String}
use flowline.Base.{
  ◌≡◌, refl, sym, subst, ap, ◌∙◌, true, false, List, [], ◌∷◌, Option, none, some, arith, Bool-cases,
  inl, inr,
}
use flowline.Base.Keys.{
  text_key, same, same_eq, same_refl, has, has-remove, remove, Distinct, remove-Distinct, has_apart,
}
use flowline.Scheduler.Cache.Pointers.{
  Links, points, point, point_from, new_item, unlink, remove_item, move_item, first, Chain, Linked,
}
use flowline.Scheduler.Cache.Pointers.Unlink.{
  unlink_next, unlink_prev, head_kept, same_apart, own_next, Chain-same, first_apart, remove_absent,
  Chain-unlink,
}

Chain-head :
    (l : Links) (head p : Option String) (xs : List String)
    → Chain l p xs
    → Chain (record l { head_worker = head }) p xs
Chain-head l head p xs c =
    Chain-same l (record l { head_worker = head }) p xs c (λ j h. (refl, refl))

-- removeWorkerInfoFromList takes the item out of the list.
pub remove_item-Linked :
    (l : Links) (u : String) (xs : List String)
    → Linked l xs
    → has xs u ≡ true
    → Distinct xs
    → Linked (remove_item l u) (remove xs u)
unfolding remove_item has remove
remove_item-Linked l u [] v there d = absurd cc
remove_item-Linked l u (x ∷ xs) (head, c) there d =
    let rest = Chain-unlink l none u (x ∷ xs) c there d (λ j k. absurd cc) in
    let same_head : (unlink l u).head_worker ≡ some x = head_kept l u ∙ head in
    elim (Bool-cases (same x u)) [
      | inl here ↦
          let own : x ≡ u = same_eq x u here in
          let gone : has xs u ≡ false = ap (has xs) (sym own) ∙ d.0 in
          rw (remove_item, same_head, here)
            (
              own_next l u ∙ ap l.next (sym own) ∙ c.1 ∙ ap first (sym (remove_absent xs u gone)),
              Chain-head (unlink l u) ((unlink l u).next u) none (remove xs u) (rw here at rest),
            )
      | inr other ↦
          rw (remove_item, same_head, other)
            (refl, Chain-head (unlink l u) (some x) none (x ∷ remove xs u) (rw other at rest))
    ]

-- The item comes to the head of the others.
abbrev pushed : Links → String → Option String → Links
pushed m u head = record {
  next = point u head m.next;
  prev = point u none (point_from head (some u) m.prev);
  head_worker = some u;
}

Chain-push :
    (m : Links) (u : String) (ys : List String)
    → Chain m none ys
    → has ys u ≡ false
    → Distinct ys
    → Chain (pushed m u (first ys)) none (u ∷ ys)
unfolding has
Chain-push m u [] c out d = (ground (arith, same_refl u), ground (arith, same_refl u), tt)
Chain-push m u (y ∷ ys) c out d =
    let away : same y u ≡ false = ground (arith, out) in
    let out' : has ys u ≡ false = ground (arith, out) in
    (
      rw (same_refl u) refl,
      rw (same_refl u) refl,
      (
        rw (same_apart u y away, same_refl y) refl,
        rw (same_apart u y away) c.1,
        Chain-same m (pushed m u (some y)) (some y) ys c.2 (λ j h.
            let far = has_apart ys u j out' h in
            (rw far refl, rw (far, has_apart ys y j d.0 h) refl)),
      ),
    )

move_stays : (l : Links) (u : String) → points l.head_worker u ≡ true → move_item l u ≡ l
unfolding move_item
move_stays l u h = rw (move_item, h) refl

move_moves :
    (l : Links) (u : String)
    → points l.head_worker u ≡ false
    → move_item l u ≡ pushed (unlink l u) u (unlink l u).head_worker
unfolding move_item
move_moves l u h = rw (move_item, h) refl

-- moveWorkerInfoToHead puts an item of the list at its head.
pub move_item-Linked :
    (l : Links) (u : String) (xs : List String)
    → Linked l xs
    → has xs u ≡ true
    → Distinct xs
    → Linked (move_item l u) (u ∷ remove xs u)
unfolding has remove
move_item-Linked l u [] v there d = absurd cc
move_item-Linked l u (x ∷ xs) (head, c) there d = elim (Bool-cases (same x u)) [
  | inl here ↦
      let own : x ≡ u = same_eq x u here in
      let gone : has xs u ≡ false = ap (has xs) (sym own) ∙ d.0 in
      let at_head : points l.head_worker u ≡ true = ap (λ o. points o u) head ∙ here in
      subst (λ m. Linked m (u ∷ remove (x ∷ xs) u)) (sym (move_stays l u at_head))
        (rw (remove, here, remove_absent xs u gone, ← own) (head, c))
  | inr other ↦
      let rest = Chain-unlink l none u (x ∷ xs) c there d (λ j k. absurd cc) in
      let same_head : (unlink l u).head_worker ≡ some x = head_kept l u ∙ head in
      let below : points l.head_worker u ≡ false = ap (λ o. points o u) head ∙ other in
      let left : remove (x ∷ xs) u ≡ x ∷ remove xs u = rw (remove, other) refl in
      subst (λ k. Linked k (u ∷ remove (x ∷ xs) u))
        (ap (pushed (unlink l u) u) (sym same_head) ∙ sym (move_moves l u below))
        (subst (λ ys. Linked (pushed (unlink l u) u (some x)) (u ∷ ys)) (sym left)
          (
            refl,
            Chain-push (unlink l u) u (x ∷ remove xs u) (subst (Chain (unlink l u) none) left rest)
                (ground (arith, other, has-remove xs u u, same_refl u))
                (subst Distinct left (remove-Distinct (x ∷ xs) u d)),
          ))
]

-- moveWorkerInfoToHead puts a new item in front of the list.
pub new_item-Linked :
    (l : Links) (u : String) (xs : List String)
    → Linked l xs
    → has xs u ≡ false
    → Distinct xs
    → Linked (move_item (new_item l u) u) (u ∷ xs)
unfolding new_item
new_item-Linked l u xs (head, c) out d =
    let m = new_item l u in
    let fresh : Chain m none xs =
      Chain-same l m none xs c
        (λ j h. let far = has_apart xs u j out h in (rw far refl, rw far refl)) in
    let apart : Chain (unlink m u) none xs = Chain-same m (unlink m u) none xs fresh (λ j h.
      (unlink_next m u j ∙ rw (same_refl u) refl, unlink_prev m u j ∙ rw (same_refl u) refl)) in
    let same_head : (unlink m u).head_worker ≡ first xs = head_kept m u ∙ head in
    let below = ap (λ o. points o u) head ∙ first_apart xs u out in
    subst (λ k. Linked k (u ∷ xs))
      (ap (pushed (unlink m u) u) (sym same_head) ∙ sym (move_moves m u below))
      (refl, Chain-push (unlink m u) u xs apart out d)
