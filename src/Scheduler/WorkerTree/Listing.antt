-- ===== src/Scheduler/WorkerTree/Listing.antt =====
-- The list of all workers: round by round over the zones.
use Prim.Native.String.{String}
use flowline.Base.{
  ℕ, zero, suc, ◌+◌, ◌<◌, ◌≡◌, refl, ap, sym, subst, ◌∙◌, Bool, true, false, leb, ◌==◌, length,
  List, [], ◌∷◌, map, is_some, arith, Bool-cases, inl, inr,
}
use flowline.Base.Keys.{
  text_key, same, same_eq, has, has_apart, keys, Distinct, lookup, erase, lookup-erase,
  keys-erase-Distinct,
}
use flowline.Base.Run.{Returns, returns}
use flowline.Scheduler.WorkerTree.{WorkerTree, workers_of, list_zones, list_loop, list}
use flowline.Scheduler.WorkerTree.Laws.{Inv, total, total-erase}
use flowline.Scheduler.WorkerTree.Rounds.{
  occurrences, occurrences_in, size, shorter, firsts, list_zones-Round, size-firsts_le,
  size-firsts_grows, firsts_all, exhausted_all, shorter-zero, size-firsts_zero,
  occurrences-firsts_zero,
}

length-map :
    (tree : List (String × List String)) (zones : List String)
    → length (map (workers_of tree) zones) ≡ length zones
length-map tree [] = refl
length-map tree (z ∷ zones) = ap suc (length-map tree zones)

-- The workers of the zones: the names and no error.
abbrev pub Complete : WorkerTree → List String × Bool → Type 0
Complete nt r =
    (r.1 ≡ false)
    × (length r.0 ≡ nt.num_workers)
    × ((name : String)
        → occurrences name r.0 ≡ occurrences_in name (map (workers_of nt.tree) nt.zones))

module _ (nt : WorkerTree)
    (counted : nt.num_workers ≡ size (map (workers_of nt.tree) nt.zones)) where
  abbrev zones : List (List String)
  zones = map (workers_of nt.tree) nt.zones

  -- The state before the round of an index.
  record At (k : ℕ) (l : List String) (exhausted : ℕ) : Type 0 where
    names : (name : String) → occurrences name l ≡ occurrences_in name (firsts k zones)
    count : length l ≡ size (firsts k zones)
    exhausted_so_far : exhausted ≡ shorter k zones

  next_At :
      (k : ℕ) (l : List String) (exhausted : ℕ)
      → At k l exhausted
      → At (suc k) (list_zones zones k l exhausted).0 (list_zones zones k l exhausted).1
  next_At k l exhausted v =
      let w = list_zones-Round zones k l exhausted in
      record {
        names = λ name. omega (arith, w.names name, v.names name);
        count = omega (arith, w.grows, v.count);
        exhausted_so_far = omega (arith, w.counts, v.exhausted_so_far);
      }

  list_loop-Complete :
      (fuel k : ℕ) (l : List String) (exhausted : ℕ)
      → At k l exhausted
      → nt.num_workers < fuel + length l
      → Returns (Complete nt) (list_loop fuel nt k l exhausted)
  unfolding list_loop
  list_loop-Complete zero k l exhausted v enough =
      absurd (omega (arith, v.count, size-firsts_le k zones))
  list_loop-Complete (suc fuel) k l exhausted v enough =
      elim (Bool-cases (leb nt.num_workers (length l))) [
        | inl done ↦
            let all : firsts k zones ≡ zones = firsts_all k zones (ground (arith, v.count)) in
            rw done (
              returns (
                refl,
                ground (arith, v.count, size-firsts_le k zones),
                λ name. v.names name ∙ ap (occurrences_in name) all,
              ))
        | inr more ↦
            let left : size (firsts k zones) < size zones = ground (arith, v.count) in
            let open_ : leb (length nt.zones) exhausted ≡ false =
              ground
                (arith, v.exhausted_so_far, length-map nt.tree nt.zones, exhausted_all k zones) in
            let next = list_zones zones k l exhausted in
            let w : At (k + 1) next.0 next.1 =
              subst (λ j. At j next.0 next.1) (omega arith) (next_At k l exhausted v) in
            let longer : length l < length next.0 =
              omega
                (arith, v.count, (next_At k l exhausted v).count, size-firsts_grows k zones left) in
            rw (more, open_) (list_loop-Complete fuel (k + 1) next.0 next.1 w (omega arith))
      ]

workers_of-erase :
    (z y : String) (tree : List (String × List String))
    → same z y ≡ false
    → workers_of (erase z tree) y ≡ workers_of tree y
workers_of-erase z y tree e = ground (arith, lookup-erase z y tree)

size-erase :
    (z : String) (tree : List (String × List String)) (zones : List String)
    → has zones z ≡ false
    → size (map (workers_of (erase z tree)) zones) ≡ size (map (workers_of tree) zones)
unfolding has
size-erase z tree [] h = refl
size-erase z tree (y ∷ zones) h =
    let apart : same z y ≡ false = has_apart (y ∷ zones) z y h (ground arith) in
    omega
      (arith, ap length (workers_of-erase z y tree apart), size-erase z tree zones (ground arith))

-- The zones that list a tree have all its workers.
size-total :
    (zones : List String) (tree : List (String × List String))
    → Distinct zones
    → Distinct (keys tree)
    → ((z : String) → has zones z ≡ is_some (lookup z tree))
    → size (map (workers_of tree) zones) ≡ total tree
unfolding has lookup
size-total [] [] d e listed = refl
size-total [] ((k, l) ∷ tree) d e listed = absurd (ground (arith, listed k))
size-total (z ∷ zones) tree d e listed =
    let rest = size-total zones (erase z tree) d.1 (keys-erase-Distinct z tree e) (λ y.
      elim (Bool-cases (same z y)) [
        | inl here ↦
            ground (arith, lookup-erase z y tree, here, d.0, ap (has zones) (same_eq z y here))
        | inr away ↦ ground (arith, lookup-erase z y tree, away, listed y)
      ]) in
    omega (arith, rest, size-erase z tree zones d.0, total-erase z tree e)

no_zones :
    (tree : List (String × List String)) (zones : List String)
    → (length zones == 0) ≡ true
    → (size (map (workers_of tree) zones) ≡ 0)
      × ((name : String) → occurrences_in name (map (workers_of tree) zones) ≡ 0)
no_zones tree [] e = (refl, λ name. refl)
no_zones tree (z ∷ zones) e = absurd (ground arith)

-- list of a well-formed tree returns, without an error, a list with as many entries as the tree has
-- workers, in which each name occurs as often as in all the zones together.
pub list-Complete : (nt : WorkerTree) → Inv nt → Returns (Complete nt) (list nt)
unfolding list
list-Complete nt v =
    let whole = size-total nt.zones nt.tree v.zones_once v.keys_once v.zones_listed in
    let counted : nt.num_workers ≡ size (map (workers_of nt.tree) nt.zones) =
      v.counted ∙ sym whole in
    elim (Bool-cases (length nt.zones == 0)) [
      | inl none_ ↦
          let empty = no_zones nt.tree nt.zones none_ in
          rw none_ (returns (refl, sym (counted ∙ empty.0), λ name. sym (empty.1 name)))
      | inr some_ ↦ rw some_ (
          list_loop-Complete nt counted (nt.num_workers + 1) 0 [] 0
            (record {
              names =
                  λ name. sym (occurrences-firsts_zero name (map (workers_of nt.tree) nt.zones));
              count = sym (size-firsts_zero (map (workers_of nt.tree) nt.zones));
              exhausted_so_far = sym (shorter-zero (map (workers_of nt.tree) nt.zones));
            })
            (omega arith))
    ]
