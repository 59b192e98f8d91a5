-- ===== src/Sets/Laws.antt =====
-- The sets of strings against membership.
use Prim.Native.String.{String}
use flowline.Base.{
  ◌≤◌, ◌≡◌, ◌↔◌, refl, Bool, true, ◌&&◌, ◌||◌, not, ltb, length, [], ◌∷◌, if◌then◌else◌, by_test,
  arith,
}
use flowline.Base.Keys.{
  text_key, has, insert, remove, Distinct, has-insert, has-remove, insert-Distinct, remove-Distinct,
  length-remove,
}
use flowline.Sets.{
  StringSet, insert_all, new_string, delete_all, difference, difference_loop, union, intersection,
  intersection_loop, is_superset, equal,
}

-- A set with the members that a test says.
pub record Has (s : StringSet) (p : String → Bool) : Type 0 where
  pub distinct : Distinct s
  pub members : (x : String) → has s x ≡ p x

insert_all-Has :
    (s items : StringSet) → Distinct s → Has (insert_all s items) (λ x. has s x || has items x)
unfolding insert_all has
insert_all-Has s [] d = record { distinct = d; members = λ x. ground arith }
insert_all-Has s (y ∷ items) d =
    let r = insert_all-Has (insert s y) items (insert-Distinct s y d) in
    record { distinct = r.distinct; members = λ x. ground (arith, r.members x, has-insert s y x) }

delete_all-Has :
    (s items : StringSet)
    → Distinct s
    → Has (delete_all s items) (λ x. has s x && not (has items x))
unfolding delete_all has
delete_all-Has s [] d = record { distinct = d; members = λ x. ground arith }
delete_all-Has s (y ∷ items) d =
    let r = delete_all-Has (remove s y) items (remove-Distinct s y d) in
    record { distinct = r.distinct; members = λ x. ground (arith, r.members x, has-remove s y x) }

difference_loop-Has :
    (s s2 r : StringSet)
    → Distinct r
    → Has (difference_loop s s2 r) (λ x. has r x || (has s x && not (has s2 x)))
unfolding difference_loop has
difference_loop-Has [] s2 r d = record { distinct = d; members = λ x. ground arith }
difference_loop-Has (y ∷ s) s2 r d =
    let r' = if has s2 y then r else insert r y in
    let d' : Distinct r' = ground (arith, insert-Distinct r y d) in
    let w = difference_loop-Has s s2 r' d' in
    record { distinct = w.distinct; members = λ x. ground (arith, w.members x, has-insert r y x) }

intersection_loop-Has :
    (s s2 r : StringSet)
    → Distinct r
    → Has (intersection_loop s s2 r) (λ x. has r x || (has s x && has s2 x))
unfolding intersection_loop has
intersection_loop-Has [] s2 r d = record { distinct = d; members = λ x. ground arith }
intersection_loop-Has (y ∷ s) s2 r d =
    let r' = if has s2 y then insert r y else r in
    let d' : Distinct r' = ground (arith, insert-Distinct r y d) in
    let w = intersection_loop-Has s s2 r' d' in
    record { distinct = w.distinct; members = λ x. ground (arith, w.members x, has-insert r y x) }

-- What the operations on two sets return.
record SetOperations (s1 s2 : StringSet) : Type 0 where
  pub union : Has (union s1 s2) (λ x. has s1 x || has s2 x)
  pub intersection : Has (intersection s1 s2) (λ x. has s1 x && has s2 x)
  pub difference : Has (difference s1 s2) (λ x. has s1 x && not (has s2 x))
  pub inserted : Has (insert_all s1 s2) (λ x. has s1 x || has s2 x)
  pub deleted : Has (delete_all s1 s2) (λ x. has s1 x && not (has s2 x))

intersection-Has : (s1 s2 : StringSet) → Has (intersection s1 s2) (λ x. has s1 x && has s2 x)
unfolding intersection new_string insert_all has
intersection-Has s1 s2 =
    let one = intersection_loop-Has s1 s2 [] tt in
    let two = intersection_loop-Has s2 s1 [] tt in
    by_test (ltb (length s1) (length s2))
      (λ b.
        Has (if b then intersection_loop s1 s2 [] else intersection_loop s2 s1 [])
          (λ x. has s1 x && has s2 x))
      (record { distinct = one.distinct; members = λ x. one.members x })
      (record { distinct = two.distinct; members = λ x. ground (arith, two.members x) })

-- Union, Intersection, Difference, Insert and Delete of sets return sets without repetition whose
-- members are those of either, of both, or of the first and not of the second.
set_operations : (s1 s2 : StringSet) → Distinct s1 → SetOperations s1 s2
unfolding union difference new_string insert_all has
set_operations s1 s2 d =
    let first = insert_all-Has [] s1 tt in
    let both = insert_all-Has (insert_all [] s1) s2 first.distinct in
    let less = difference_loop-Has s1 s2 [] tt in
    record {
      union = record {
        distinct = both.distinct;
        members = λ x. ground (arith, both.members x, first.members x);
      };
      intersection = intersection-Has s1 s2;
      difference = record {
        distinct = less.distinct;
        members = λ x. ground (arith, less.members x);
      };
      inserted = insert_all-Has s1 s2 d;
      deleted = delete_all-Has s1 s2 d;
    }

-- A set of at most as many members that contains another has no further members.
no_more :
    (t s : StringSet)
    → Distinct t
    → Distinct s
    → ((x : String) → has t x ≡ true → has s x ≡ true)
    → length s ≤ length t
    → (x : String) → has s x ≡ true
    → has t x ≡ true
unfolding has
no_more [] [] dt ds within short x h = ground arith
no_more [] (z ∷ s) dt ds within short x h = absurd (omega arith)
no_more (y ∷ t) s dt ds within short x h =
    let rest =
      no_more t (remove s y) dt.1 (remove-Distinct s y ds)
        (λ z e. ground (arith, within z, has-remove s y z))
        (ground (arith, length-remove s y ds, within y)) x in
    ground (arith, rest, has-remove s y x)

within_short :
    (t s : StringSet)
    → Distinct t
    → Distinct s
    → ((x : String) → has t x ≡ true → has s x ≡ true)
    → length t ≤ length s
unfolding has
within_short [] s dt ds within = omega arith
within_short (y ∷ t) s dt ds within =
    let rest =
      within_short t (remove s y) dt.1 (remove-Distinct s y ds)
        (λ z e. ground (arith, within z, has-remove s y z)) in
    ground (arith, length-remove s y ds, within y)

is_superset-has :
    (s1 s2 : StringSet)
    → is_superset s1 s2 ≡ true
    → (x : String) → has s2 x ≡ true
    → has s1 x ≡ true
unfolding is_superset has
is_superset-has s1 [] e x h = absurd cc
is_superset-has s1 (y ∷ s2) e x h =
    let rest : is_superset s1 s2 ≡ true = ground arith in
    ground (arith, is_superset-has s1 s2 rest x)

has-is_superset :
    (s1 s2 : StringSet)
    → ((x : String) → has s2 x ≡ true → has s1 x ≡ true)
    → is_superset s1 s2 ≡ true
unfolding is_superset has
has-is_superset s1 [] f = refl
has-is_superset s1 (y ∷ s2) f =
    ground (arith, f y, has-is_superset s1 s2 (λ x h. ground (arith, f x)))

-- Equal of two sets without repetition is true exactly if they have the same members.
equal_iff :
    (s1 s2 : StringSet)
    → Distinct s1
    → Distinct s2
    → (equal s1 s2 ≡ true) ↔ ((x : String) → has s1 x ≡ has s2 x)
unfolding equal
equal_iff s1 s2 d1 d2 = (
  λ e x.
      let wide : is_superset s1 s2 ≡ true = ground arith in
      ground (
        arith,
        is_superset-has s1 s2 wide x,
        no_more s2 s1 d2 d1 (is_superset-has s1 s2 wide) (ground arith) x,
      ),
  λ f. ground (
    arith,
    has-is_superset s1 s2 (λ x h. cc (f x)),
    within_short s1 s2 d1 d2 (λ x h. cc (f x)),
    within_short s2 s1 d2 d1 (λ x h. cc (f x)),
  ),
)
