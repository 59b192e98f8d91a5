-- ===== src/Scheduler/WorkerTree/Laws.antt =====
-- The zones and the number of workers of a tree agree with its lists.
use Prim.Native.String.{String}
use flowline.Base.{
  ℕ, ◌+◌, ◌<◌, ◌≡◌, refl, Bool, true, false, not, ◌||◌, ◌==◌, length, length-append, List, [], ◌∷◌,
  ◌++◌, none, some, is_some, if◌then◌else◌, arith, Option-cases, Bool-cases, inl, inr,
}
use flowline.Base.Keys.{
  text_key, same, has, has-nonempty, has-append, has-keys, lookup, store, erase, keys, Distinct,
  append_new-Distinct, lookup-store, lookup-erase, keys-store-Distinct, keys-erase-Distinct,
}
use flowline.Scheduler.WorkerTree.{
  Worker, WorkerTree, get_zone_key, new_tree, add_worker, cut, remove_zone, remove_worker,
}

-- The number of names in all the zones.
abbrev pub total : List (String × List String) → ℕ
total [] = 0
total ((z, names) ∷ m) = length names + total m

abbrev pub names_in : WorkerTree → String → List String
names_in nt z = elim (lookup z nt.tree) [ none ↦ [] | some names ↦ names ]

-- A well-formed tree.
pub record Inv (nt : WorkerTree) : Type 0 where
  pub zones_once : Distinct nt.zones
  pub keys_once : Distinct (keys nt.tree)
  pub zones_listed : (z : String) → has nt.zones z ≡ is_some (lookup z nt.tree)
  pub names_once : (z : String) → Distinct (names_in nt z)
  pub not_empty :
      (z : String) (names : List String) → lookup z nt.tree ≡ some names → 0 < length names
  pub counted : nt.num_workers ≡ total nt.tree

total-store :
    (z : String) (names : List String) (m : List (String × List String))
    → total (store z names m)
        + length (elim (lookup z m) as (λ _. List String) [ none ↦ [] | some old ↦ old ])
      ≡ total m + length names
unfolding store lookup
total-store z names [] = omega arith
total-store z names ((k, old) ∷ m) = ground (arith, total-store z names m)

pub total-erase :
    (z : String) (m : List (String × List String))
    → Distinct (keys m)
    → total (erase z m)
        + length (elim (lookup z m) as (λ _. List String) [ none ↦ [] | some old ↦ old ])
      ≡ total m
unfolding erase lookup
total-erase z [] d = omega arith
total-erase z ((k, old) ∷ m) d = ground (arith, total-erase z m d.1, has-keys k m)

has-cut :
    (l : List String) (x y : String)
    → Distinct l
    → has (cut l x) y ≡ (if same x y then false else has l y)
unfolding has cut
has-cut [] x y d = ground arith
has-cut (z ∷ l) x y d = ground (arith, has-cut l x y d.1)

cut-Distinct : (l : List String) (x : String) → Distinct l → Distinct (cut l x)
unfolding cut
cut-Distinct [] x d = tt
cut-Distinct (z ∷ l) x d = ground (arith, has-cut l x z d.1, cut-Distinct l x d.1)

length-cut : (l : List String) (x : String) → has l x ≡ true → length (cut l x) + 1 ≡ length l
unfolding has cut
length-cut [] x h = absurd cc
length-cut (y ∷ l) x h = ground (arith, length-cut l x)

-- What a call does to the workers: the names in one zone change, the others do not.
pub record Changed (nt : WorkerTree) (zone : String) (p : String → Bool) (nt' : WorkerTree)
    : Type 0 where
  pub inv : Inv nt'
  pub members : (name : String) → has (names_in nt' zone) name ≡ p name
  pub others : (z : String) → same zone z ≡ false → names_in nt' z ≡ names_in nt z

-- addWorker keeps a tree well-formed; afterwards the worker is in its zone, with those that were
-- there, and the other zones have the names they had.
pub add_worker_correct :
    (nt : WorkerTree) (n : Worker)
    → Inv nt
    → Changed nt
        (get_zone_key n)
        (λ name. has (names_in nt (get_zone_key n)) name || same n.name name)
        (add_worker nt n)
unfolding add_worker has
add_worker_correct nt n v =
    let zone = get_zone_key n in
    elim (Option-cases (lookup zone nt.tree)) [
      | inl missing ↦
          rw (missing, add_worker)
            (record {
              inv = record {
                zones_once =
                    append_new-Distinct nt.zones zone v.zones_once
                      (ground (arith, v.zones_listed zone));
                keys_once = keys-store-Distinct zone (n.name ∷ []) nt.tree v.keys_once;
                zones_listed = λ z. ground (
                  arith,
                  has-append nt.zones (zone ∷ []) z,
                  lookup-store zone z (n.name ∷ []) nt.tree,
                  v.zones_listed z,
                );
                names_once =
                    λ z. ground (arith, lookup-store zone z (n.name ∷ []) nt.tree, v.names_once z);
                not_empty = λ z names e.
                    ground (arith, lookup-store zone z (n.name ∷ []) nt.tree, v.not_empty z names);
                counted = ground (arith, total-store zone (n.name ∷ []) nt.tree, v.counted);
              };
              members = λ name. ground (arith, lookup-store zone zone (n.name ∷ []) nt.tree);
              others = λ z apart. ground (arith, lookup-store zone z (n.name ∷ []) nt.tree);
            })
      | inr (na, there) ↦ elim (Bool-cases (has na n.name)) [
        | inl known ↦
            rw (there, known, add_worker)
              (record { inv = v; members = λ name. ground arith; others = λ z apart. refl })
        | inr fresh ↦
            rw (there, fresh, add_worker)
              (record {
                inv = record {
                  zones_once = v.zones_once;
                  keys_once = keys-store-Distinct zone (na ++ n.name ∷ []) nt.tree v.keys_once;
                  zones_listed = λ z.
                      ground
                        (arith, lookup-store zone z (na ++ n.name ∷ []) nt.tree, v.zones_listed z);
                  names_once = λ z. ground (
                    arith,
                    lookup-store zone z (na ++ n.name ∷ []) nt.tree,
                    v.names_once z,
                    v.names_once zone,
                    append_new-Distinct na n.name,
                  );
                  not_empty = λ z names e. ground (
                    arith,
                    lookup-store zone z (na ++ n.name ∷ []) nt.tree,
                    v.not_empty z names,
                    length-append na (n.name ∷ []),
                  );
                  counted = ground (
                    arith,
                    total-store zone (na ++ n.name ∷ []) nt.tree,
                    v.counted,
                    length-append na (n.name ∷ []),
                  );
                };
                members = λ name. ground (
                  arith,
                  lookup-store zone zone (na ++ n.name ∷ []) nt.tree,
                  has-append na (n.name ∷ []) name,
                );
                others = λ z apart. ground (arith, lookup-store zone z (na ++ n.name ∷ []) nt.tree);
              })
      ]
    ]

removed :
    (nt : WorkerTree) (n : Worker) (na : List String)
    → Inv nt
    → lookup (get_zone_key n) nt.tree ≡ some na
    → has na n.name ≡ true
    → Changed nt
        (get_zone_key n)
        (λ name. if same n.name name then false else has (names_in nt (get_zone_key n)) name)
        (remove_worker nt n).0
unfolding remove_worker remove_zone has
removed nt n na v there known =
    let zone = get_zone_key n in
    let l = cut na n.name in
    let short = length-cut na n.name known in
    let stored = store zone l nt.tree in
    let once = keys-store-Distinct zone l nt.tree v.keys_once in
    let gone : (z : String)
        → lookup z (erase zone stored) ≡ (if same zone z then none else lookup z nt.tree) =
      λ z. ground (arith, lookup-erase zone z stored, lookup-store zone z l nt.tree) in
    elim (Bool-cases (length l == 0)) [
      | inl empty ↦
          rw (there, known, empty, remove_worker)
            (record {
              inv = record {
                zones_once = cut-Distinct nt.zones zone v.zones_once;
                keys_once = keys-erase-Distinct zone stored once;
                zones_listed = λ z.
                    ground (arith, gone z, has-cut nt.zones zone z v.zones_once, v.zones_listed z);
                names_once = λ z. ground (arith, gone z, v.names_once z);
                not_empty = λ z names e. ground (arith, gone z, v.not_empty z names);
                counted = ground (
                  arith,
                  total-erase zone stored once,
                  total-store zone l nt.tree,
                  lookup-store zone zone l nt.tree,
                  v.counted,
                  short,
                );
              };
              members = λ name. ground (
                arith,
                gone zone,
                v.names_once zone,
                has-cut na n.name name,
                has-nonempty l name,
              );
              others = λ z apart. ground (arith, gone z);
            })
      | inr more ↦
          rw (there, known, more, remove_worker)
            (record {
              inv = record {
                zones_once = v.zones_once;
                keys_once = keys-store-Distinct zone l nt.tree v.keys_once;
                zones_listed = λ z. ground (arith, lookup-store zone z l nt.tree, v.zones_listed z);
                names_once = λ z. ground (
                  arith,
                  lookup-store zone z l nt.tree,
                  v.names_once z,
                  v.names_once zone,
                  cut-Distinct na n.name,
                );
                not_empty =
                    λ z names e. ground (arith, lookup-store zone z l nt.tree, v.not_empty z names);
                counted = ground (arith, total-store zone l nt.tree, v.counted, short);
              };
              members = λ name. ground (
                arith,
                lookup-store zone zone l nt.tree,
                v.names_once zone,
                has-cut na n.name name,
              );
              others = λ z apart. ground (arith, lookup-store zone z l nt.tree);
            })
    ]

-- removeWorker of a worker that is in its zone keeps a tree well-formed, takes the worker out of the
-- zone and reports no error; the zone keeps its other workers, and the other zones have the names
-- they had. Of any other worker it reports an error and changes nothing.
pub remove_worker_correct :
    (nt : WorkerTree) (n : Worker)
    → Inv nt
    → Changed nt
        (get_zone_key n)
        (λ name. if same n.name name then false else has (names_in nt (get_zone_key n)) name)
        (remove_worker nt n).0
      × ((remove_worker nt n).1 ≡ not (has (names_in nt (get_zone_key n)) n.name))
      × (has (names_in nt (get_zone_key n)) n.name ≡ false → (remove_worker nt n).0 ≡ nt)
unfolding remove_worker has
remove_worker_correct nt n v =
    let zone = get_zone_key n in
    elim (Option-cases (lookup zone nt.tree)) [
      | inl missing ↦
          rw (missing, remove_worker)
            (
              record { inv = v; members = λ name. ground arith; others = λ z apart. refl },
              ground arith,
              λ e. refl,
            )
      | inr (na, there) ↦ elim (Bool-cases (has na n.name)) [
        | inl known ↦ (removed nt n na v there known, ground arith, λ e. absurd (ground arith))
        | inr unknown ↦
            rw (there, unknown, remove_worker)
              (
                record { inv = v; members = λ name. ground arith; others = λ z apart. refl },
                ground arith,
                λ e. refl,
              )
      ]
    ]

pub new-Inv : Inv new_tree
unfolding new_tree has lookup
new-Inv = record {
  zones_once = tt;
  keys_once = tt;
  zones_listed = λ z. refl;
  names_once = λ z. tt;
  not_empty = λ z names e. ground arith;
  counted = refl;
}
