-- ===== src/Scheduler/WorkerTree/Rounds.antt =====
-- Rounds over the zones: what the list has after so many of them.
use Prim.Native.String.{String}
use flowline.Base.{
  ℕ, zero, suc, ◌+◌, ◌≤◌, ◌<◌, ◌≡◌, refl, ap, ◌∙◌, ltb, ◌==◌, length, length-append, length-take,
  get_elem?, get_elem?-lt, take, List, [], ◌∷◌, ◌++◌, none, some, if◌then◌else◌, arith,
  Option-cases, Bool-cases, inl, inr,
}
use flowline.Base.Keys.{text_key, same}
use flowline.Scheduler.WorkerTree.{list_zones}

-- How often a name occurs.
abbrev pub occurrences : String → List String → ℕ
occurrences name [] = 0
occurrences name (x ∷ l) = (if same x name then 1 else 0) + occurrences name l

occurrences-append :
    (name : String) (l m : List String)
    → occurrences name (l ++ m) ≡ occurrences name l + occurrences name m
occurrences-append name [] m = omega arith
occurrences-append name (x ∷ l) m = omega (arith, occurrences-append name l m)

-- Of all zones: the names, the occurrences of a name, and how many have fewer names than a number.
abbrev pub size : List (List String) → ℕ
size [] = 0
size (na ∷ zones) = length na + size zones

abbrev pub occurrences_in : String → List (List String) → ℕ
occurrences_in name [] = 0
occurrences_in name (na ∷ zones) = occurrences name na + occurrences_in name zones

abbrev pub shorter : ℕ → List (List String) → ℕ
shorter k [] = 0
shorter k (na ∷ zones) = (if ltb (length na) k then 1 else 0) + shorter k zones

-- The first names of each zone.
abbrev pub firsts : ℕ → List (List String) → List (List String)
firsts k [] = []
firsts k (na ∷ zones) = take k na ∷ firsts k zones

-- One more name is taken, if there is one.
take-more :
    (k : ℕ) (na : List String) (name : String)
    → occurrences name (take (suc k) na)
      ≡ occurrences name (take k na)
        + occurrences name
            (elim (get_elem? na k) as (λ _. List String) [ none ↦ [] | some x ↦ x ∷ [] ])
take-more zero [] name = refl
take-more zero (x ∷ na) name = omega arith
take-more (suc k) [] name = refl
take-more (suc k) (x ∷ na) name = omega (arith, take-more k na name)

length-take_more :
    (k : ℕ) (na : List String)
    → length (take (suc k) na)
      ≡ length (take k na)
        + length (elim (get_elem? na k) as (λ _. List String) [ none ↦ [] | some x ↦ x ∷ [] ])
length-take_more zero [] = refl
length-take_more zero (x ∷ na) = omega arith
length-take_more (suc k) [] = refl
length-take_more (suc k) (x ∷ na) = omega (arith, length-take_more k na)

none_beyond : (na : List String) (k : ℕ) → get_elem? na k ≡ none → length na ≤ k
none_beyond [] k e = omega arith
none_beyond (x ∷ na) zero e = absurd cc
none_beyond (x ∷ na) (suc k) e = omega (arith, none_beyond na k e)

-- What a round over the zones adds to the list and to the number of exhausted zones.
pub record Round (zones : List (List String)) (k : ℕ) (l : List String) (exhausted : ℕ)
    (longer : List String) (more : ℕ) : Type 0 where
  pub names :
      (name : String)
      → occurrences name longer + occurrences_in name (firsts k zones)
        ≡ occurrences name l + occurrences_in name (firsts (suc k) zones)
  pub grows : length longer + size (firsts k zones) ≡ length l + size (firsts (suc k) zones)
  pub counts : more + shorter k zones ≡ exhausted + shorter (suc k) zones

pub list_zones-Round :
    (zones : List (List String)) (k : ℕ) (l : List String) (exhausted : ℕ)
    → Round zones k l exhausted
        (list_zones zones k l exhausted).0
        (list_zones zones k l exhausted).1
unfolding list_zones
list_zones-Round [] k l exhausted = record { names = λ name. refl; grows = refl; counts = refl }
list_zones-Round (na ∷ zones) k l exhausted = elim (Option-cases (get_elem? na k)) [
  | inl missing ↦
      let w = list_zones-Round zones k l (if k == length na then exhausted + 1 else exhausted) in
      rw (missing, list_zones)
        (record {
          names = λ name. omega (arith, w.names name, rw missing at (take-more k na name));
          grows = omega (arith, w.grows, rw missing at (length-take_more k na));
          counts = ground (arith, w.counts, none_beyond na k missing);
        })
  | inr (x, there) ↦
      let w = list_zones-Round zones k (l ++ x ∷ []) exhausted in
      rw (there, list_zones)
        (record {
          names = λ name. omega (
            arith,
            w.names name,
            occurrences-append name l (x ∷ []),
            rw there at (take-more k na name),
          );
          grows =
              omega (arith, w.grows, length-append l (x ∷ []), rw there at (length-take_more k na));
          counts = ground (arith, w.counts, get_elem?-lt na k x there);
        })
]

pub size-firsts_le : (k : ℕ) (zones : List (List String)) → size (firsts k zones) ≤ size zones
size-firsts_le k [] = omega arith
size-firsts_le k (na ∷ zones) = omega (arith, size-firsts_le k zones, length-take k na)

size-firsts_monotone :
    (k : ℕ) (zones : List (List String)) → size (firsts k zones) ≤ size (firsts (suc k) zones)
size-firsts_monotone k [] = omega arith
size-firsts_monotone k (na ∷ zones) =
    omega (arith, size-firsts_monotone k zones, length-take k na, length-take (suc k) na)

-- As long as the rounds are not over all names, the next one adds one.
pub size-firsts_grows :
    (k : ℕ) (zones : List (List String))
    → size (firsts k zones) < size zones
    → size (firsts k zones) < size (firsts (suc k) zones)
size-firsts_grows k [] h = h
size-firsts_grows k (na ∷ zones) h = elim (Bool-cases (ltb k (length na))) [
  | inl longer ↦
      ground (arith, size-firsts_monotone k zones, length-take k na, length-take (suc k) na)
  | inr short ↦
      let rest : size (firsts k zones) < size zones = ground (arith, length-take k na) in
      ground (arith, size-firsts_grows k zones rest, length-take k na, length-take (suc k) na)
]

take_all : (k : ℕ) (na : List String) → length na ≤ k → take k na ≡ na
take_all zero [] h = refl
take_all zero (x ∷ na) h = absurd (omega arith)
take_all (suc k) [] h = refl
take_all (suc k) (x ∷ na) h =
    let less : length na ≤ k = omega arith in ap (λ l. x ∷ l) (take_all k na less)

-- Once all names are counted, the rounds are over all names.
pub firsts_all :
    (k : ℕ) (zones : List (List String))
    → size zones ≤ size (firsts k zones)
    → firsts k zones ≡ zones
firsts_all k [] h = refl
firsts_all k (na ∷ zones) h =
    let short : length na ≤ k = omega (arith, size-firsts_le k zones, length-take k na) in
    let rest : size zones ≤ size (firsts k zones) = omega (arith, length-take k na) in
    ap (λ l. l ∷ firsts k zones) (take_all k na short) ∙ ap (λ l. na ∷ l) (firsts_all k zones rest)

shorter-le : (k : ℕ) (zones : List (List String)) → shorter k zones ≤ length zones
shorter-le k [] = omega arith
shorter-le k (na ∷ zones) = ground (arith, shorter-le k zones)

-- Once all zones are exhausted, all names are counted.
pub exhausted_all :
    (k : ℕ) (zones : List (List String))
    → length zones ≤ shorter k zones
    → size zones ≤ size (firsts k zones)
exhausted_all k [] h = omega arith
exhausted_all k (na ∷ zones) h =
    ground (arith, exhausted_all k zones, shorter-le k zones, length-take k na)

pub shorter-zero : (zones : List (List String)) → shorter 0 zones ≡ 0
shorter-zero [] = refl
shorter-zero (na ∷ zones) = ground (arith, shorter-zero zones)

pub size-firsts_zero : (zones : List (List String)) → size (firsts 0 zones) ≡ 0
size-firsts_zero [] = refl
size-firsts_zero (na ∷ zones) = omega (arith, size-firsts_zero zones)

pub occurrences-firsts_zero :
    (name : String) (zones : List (List String)) → occurrences_in name (firsts 0 zones) ≡ 0
occurrences-firsts_zero name [] = refl
occurrences-firsts_zero name (na ∷ zones) = omega (arith, occurrences-firsts_zero name zones)
