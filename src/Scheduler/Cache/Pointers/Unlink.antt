-- ===== src/Scheduler/Cache/Pointers/Unlink.antt =====
-- The items that are left when an item is unlinked.
use Prim.Native.String.{String}
use flowline.Base.{
  ◌≡◌, ◌≢◌, refl, sym, ap, ◌∙◌, true, false, ◌||◌, List, [], ◌∷◌, Option, some, if◌then◌else◌,
  arith, Bool-cases, Option-cases, inl, inr,
}
use flowline.Base.Keys.{text_key, same, same_eq, same_refl, has, remove, Distinct, has_apart}
use flowline.Scheduler.Cache.Pointers.{Links, points, point_from, unlink, first, Chain}

pub unlink_next :
    (l : Links) (u j : String)
    → (unlink l u).next j ≡ (if points (l.prev u) j then l.next u else l.next j)
unfolding unlink
unlink_next l u j = elim (Option-cases (l.prev u)) [
  | inl nil ↦ rw (unlink, nil) refl
  | inr (p, there) ↦ rw (unlink, there) refl
]

pub head_kept : (l : Links) (u : String) → (unlink l u).head_worker ≡ l.head_worker
unfolding unlink
head_kept l u = refl

pub same_apart : (u y : String) → same y u ≡ false → same u y ≡ false
same_apart u y h = ground (arith, h)

pub own_next : (l : Links) (u : String) → (unlink l u).next u ≡ l.next u
own_next l u = ground (arith, unlink_next l u u)

pub unlink_prev :
    (l : Links) (u j : String)
    → (unlink l u).prev j ≡ (if points (l.next u) j then l.prev u else l.prev j)
unfolding unlink
unlink_prev l u j =
    let own : point_from (l.prev u) (l.next u) l.next u ≡ l.next u = own_next l u in
    elim (Option-cases (l.next u)) [
      | inl nil ↦ rw (unlink, own, nil) refl
      | inr (n, there) ↦ rw (unlink, own, there) refl
    ]

pub Chain-same :
    (l m : Links) (p : Option String) (xs : List String)
    → Chain l p xs
    → ((j : String) → has xs j ≡ true → (m.next j ≡ l.next j) × (m.prev j ≡ l.prev j))
    → Chain m p xs
unfolding has
Chain-same l m p [] c e = tt
Chain-same l m p (x ∷ xs) c e =
    let (n, v) = e x (ground (arith, same_refl x)) in
    (v ∙ c.0, n ∙ c.1, Chain-same l m (some x) xs c.2 (λ j h. e j (ground (arith, h))))

first_within : (xs : List String) (j : String) → points (first xs) j ≡ true → has xs j ≡ true
unfolding has
first_within [] j h = absurd cc
first_within (x ∷ xs) j h = ground (arith, h)

pub first_apart : (xs : List String) (u : String) → has xs u ≡ false → points (first xs) u ≡ false
unfolding has
first_apart [] u h = refl
first_apart (x ∷ xs) u h = ground (arith, h)

next_within :
    (l : Links) (p : Option String) (xs : List String) (u j : String)
    → Chain l p xs
    → has xs u ≡ true
    → points (l.next u) j ≡ true
    → has xs j ≡ true
unfolding has
next_within l p [] u j c h k = absurd cc
next_within l p (x ∷ xs) u j c h k = elim (Bool-cases (same x u)) [
  | inl here ↦
      let it : l.next u ≡ first xs = ap l.next (sym (same_eq x u here)) ∙ c.1 in
      ground (arith, first_within xs j (rw it at k))
  | inr later ↦ ground (arith, next_within l (some x) xs u j c.2 (ground (arith, h, later)) k)
]

prev_within :
    (l : Links) (x : String) (xs : List String) (u j : String)
    → Chain l (some x) xs
    → has xs u ≡ true
    → points (l.prev u) j ≡ true
    → same x j || has xs j ≡ true
unfolding has
prev_within l x [] u j c h k = absurd cc
prev_within l x (y ∷ ys) u j c h k = elim (Bool-cases (same y u)) [
  | inl here ↦
      let it : l.prev u ≡ some x = ap l.prev (sym (same_eq y u here)) ∙ c.0 in ground (arith, it, k)
  | inr later ↦ ground (arith, prev_within l y ys u j c.2 (ground (arith, h, later)) k)
]

pub remove_absent : (xs : List String) (u : String) → has xs u ≡ false → remove xs u ≡ xs
unfolding has remove
remove_absent [] u h = refl
remove_absent (x ∷ xs) u h = ground (arith, remove_absent xs u, h)

-- What follows the item that is taken out.
Chain-after :
    (l : Links) (p : Option String) (u : String) (xs : List String)
    → l.prev u ≡ p
    → l.next u ≡ first xs
    → Chain l (some u) xs
    → Distinct xs
    → ((j : String) → points p j ≡ true → has xs j ≡ false)
    → Chain (unlink l u) p xs
unfolding has
Chain-after l p u [] before after c d apart = tt
Chain-after l p u (x ∷ xs) before after c d apart = (
  ground (arith, unlink_prev l u x, before, after, same_refl x),
  ground (arith, unlink_next l u x, before, after, apart x, same_refl x, c.1),
  Chain-same l (unlink l u) (some x) xs c.2 (λ j h. (
    ground (arith, unlink_next l u j, before, apart j, h),
    ground (arith, unlink_prev l u j, after, has_apart xs x j d.0 h),
  )),
)

prev_kept :
    (l : Links) (p : Option String) (u x : String) (xs : List String)
    → Chain l p xs
    → has xs u ≡ true
    → has xs x ≡ false
    → (unlink l u).prev x ≡ l.prev x
prev_kept l p u x xs c there out = elim (Bool-cases (points (l.next u) x)) [
  | inl near ↦ absurd (ground (arith, next_within l p xs u x c there near, out))
  | inr far ↦ ground (arith, unlink_prev l u x, far)
]

within_false :
    (y : String) (ys : List String) (x : String)
    → has (y ∷ ys) x ≡ false
    → same y x || has ys x ≡ false
unfolding has
within_false y ys x h = ground (arith, h)

true≢false : true ≢ false
true≢false e = cc e

next_kept :
    (l : Links) (x u : String) (xs : List String)
    → l.next x ≡ first xs
    → Chain l (some x) xs
    → has xs u ≡ true
    → Distinct xs
    → has xs x ≡ false
    → (unlink l u).next x ≡ first (remove xs u)
unfolding has remove
next_kept l x u [] follows c there d out = absurd cc
next_kept l x u (y ∷ ys) follows c there d out = elim (Bool-cases (same y u)) [
  | inl here ↦
      let own : y ≡ u = same_eq y u here in
      let gone : has ys u ≡ false = ap (has ys) (sym own) ∙ d.0 in
      let before : l.prev u ≡ some x = ap l.prev (sym own) ∙ c.0 in
      let after : l.next u ≡ first ys = ap l.next (sym own) ∙ c.1 in
      rw (remove, here, remove_absent ys u gone)
        (unlink_next l u x ∙ rw (before, same_refl x) after)
  | inr other ↦ elim (Bool-cases (points (l.prev u) x)) [
    | inl near ↦
        let there' : has ys u ≡ true = rw other at there in
        absurd (true≢false (sym (prev_within l y ys u x c.2 there' near) ∙ within_false y ys x out))
    | inr far ↦ rw (remove, other) (unlink_next l u x ∙ rw far follows)
  ]
]

-- An item of the list is taken out.
pub Chain-unlink :
    (l : Links) (p : Option String) (u : String) (xs : List String)
    → Chain l p xs
    → has xs u ≡ true
    → Distinct xs
    → ((j : String) → points p j ≡ true → has xs j ≡ false)
    → Chain (unlink l u) p (remove xs u)
unfolding has remove
Chain-unlink l p u [] c h d apart = tt
Chain-unlink l p u (x ∷ xs) c h d apart = elim (Bool-cases (same x u)) [
  | inl here ↦
      let own : x ≡ u = same_eq x u here in
      let gone : has xs u ≡ false = ap (has xs) (sym own) ∙ d.0 in
      rw (remove, here, remove_absent xs u gone)
        (Chain-after l p u xs (ap l.prev (sym own) ∙ c.0) (ap l.next (sym own) ∙ c.1)
          (rw own at c.2) d.1 (λ j k. ground (arith, apart j k)))
  | inr other ↦
      let there : has xs u ≡ true = ground (arith, h, other) in
      rw (remove, other)
        (
          prev_kept l (some x) u x xs c.2 there d.0 ∙ c.0,
          next_kept l x u xs c.1 c.2 there d.1 d.0,
          Chain-unlink l (some x) u xs c.2 there d.1
              (λ j k. ap (has xs) (sym (same_eq x j k)) ∙ d.0),
        )
]
