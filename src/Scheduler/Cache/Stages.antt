-- ===== src/Scheduler/Cache/Stages.antt =====
-- WorkerInfo.RemoveStage: the stages of a worker without one of them.
use Prim.Native.String.{String}
use flowline.Base.{
  ℕ, suc, ◌-◌, ◌≡◌, refl, ap, sym, subst, ◌∙◌, true, false, not, ◌&&◌, ◌||◌, All, length, get_elem?,
  set, take, List, [], ◌∷◌, ◌++◌, map, none, some, arith, Option-cases, Bool-cases, inl, inr,
}
use mathlib.Core.Option
use flowline.Base.Keys.{text_key, same, same_eq, has, has-append, Distinct}
use flowline.Scheduler.Types.{Stage}
use flowline.Scheduler.Cache.{get_stage_key, index_of, without_stage}

abbrev pub uids : List Stage → List String
uids = map (λ s. s.uid)

-- A stage has a key.
abbrev pub Keyed : Stage → Type 0
Keyed s = same s.uid "" ≡ false

pub uids-append : (l m : List Stage) → uids (l ++ m) ≡ uids l ++ uids m
uids-append [] m = refl
uids-append (s ∷ l) m = ap (λ t. s.uid ∷ t) (uids-append l m)

last_first : (m : List String) (x : String) → Distinct (m ++ x ∷ []) → Distinct (x ∷ m)
unfolding has
last_first [] x d = (refl, tt)
last_first (y ∷ m) x d =
    ground (arith, last_first m x d.1, has-append m (x ∷ []) y, same_eq x y, same_eq y x)

-- A list that is not empty, as its last entry and those before it.
record Split (l : List Stage) : Type 0 where
  init : List Stage
  last : Stage
  whole : l ≡ init ++ last ∷ []
  at_end : get_elem? l (length l - 1) ≡ some last
  before : take (length l - 1) l ≡ init
  shorter : length l ≡ suc (length init)

shift : (l : List Stage) → suc (suc (length l)) - 1 ≡ suc (suc (length l) - 1)
shift l = omega arith

split : (s : Stage) (l : List Stage) → Split (s ∷ l)
split s [] = record {
  init = [];
  last = s;
  whole = refl;
  at_end = refl;
  before = refl;
  shorter = refl;
}
split s (t ∷ l) =
    let w = split t l in
    record {
      init = s ∷ w.init;
      last = w.last;
      whole = ap (λ m. s ∷ m) w.whole;
      at_end = ap (get_elem? (s ∷ t ∷ l)) (shift l) ∙ w.at_end;
      before = ap (λ n. take n (s ∷ t ∷ l)) (shift l) ∙ ap (λ m. s ∷ m) w.before;
      shorter = ap suc w.shorter;
    }

-- The stages without that of a key.
pub record Without (key : String) (l : List Stage) : Type 0 where
  pub rest : List Stage
  pub made : without_stage l key ≡ some rest
  pub members : (k : String) → has (uids rest) k ≡ not (same key k) && has (uids l) k
  pub once : Distinct (uids rest)

key_of_stage : (s : Stage) → Keyed s → get_stage_key s ≡ some s.uid
unfolding get_stage_key
key_of_stage s keyed = rw keyed refl

index_here :
    (key : String) (s : Stage) (l : List Stage)
    → Keyed s
    → same key s.uid ≡ true
    → index_of key (s ∷ l) ≡ some 0
unfolding index_of
index_here key s l keyed here = rw (index_of, key_of_stage s keyed, here) refl

index_next :
    (key : String) (s : Stage) (l : List Stage) (i : ℕ)
    → Keyed s
    → same key s.uid ≡ false
    → index_of key l ≡ some i
    → index_of key (s ∷ l) ≡ some (suc i)
unfolding index_of
index_next key s l i keyed away there = rw (index_of, key_of_stage s keyed, away, there) refl

without_made :
    (key : String) (l : List Stage) (i : ℕ) (last : Stage)
    → index_of key l ≡ some i
    → get_elem? l (length l - 1) ≡ some last
    → without_stage l key ≡ some (take (length l - 1) (set l i last))
unfolding without_stage
without_made key l i last found ends = rw (without_stage, found, ends) refl

nothing_made : (key : String) (l : List Stage) → index_of key l ≡ none → without_stage l key ≡ none
unfolding without_stage
nothing_made key l missing = rw (without_stage, missing) refl

nothing_left : (key : String) → without_stage [] key ≡ none
unfolding index_of
nothing_left key = nothing_made key [] refl

-- The last stage moves to the front.
front_moved :
    (key : String) (s t : Stage) (l : List Stage)
    → Keyed s
    → same key s.uid ≡ true
    → Distinct (uids (s ∷ t ∷ l))
    → Without key (s ∷ t ∷ l)
unfolding has split
front_moved key s t l keyed here d =
    let w = split t l in
    let v = split s (t ∷ l) in
    let ends : uids (t ∷ l) ≡ uids w.init ++ w.last.uid ∷ [] =
      ap uids w.whole ∙ uids-append w.init (w.last ∷ []) in
    let in_tail : (k : String) → has (uids (t ∷ l)) k ≡ has (uids w.init) k || same w.last.uid k =
      λ k. ap (λ m. has m k) ends ∙ has-append (uids w.init) (w.last.uid ∷ []) k ∙ ground arith in
    record {
      rest = w.last ∷ w.init;
      made =
          without_made key (s ∷ t ∷ l) 0 w.last (index_here key s (t ∷ l) keyed here) v.at_end
          ∙ ap (λ n. some (take n (w.last ∷ t ∷ l))) (shift l)
          ∙ ap (λ m. some (w.last ∷ m)) w.before;
      members = λ k. elim (Bool-cases (same key k)) [
        | inl hit ↦ ground (
          arith,
          hit,
          in_tail k,
          d.0,
          ap (λ x. has (uids (t ∷ l)) x) (sym (same_eq key k hit) ∙ same_eq key s.uid here),
        )
        | inr miss ↦ ground (arith, miss, in_tail k, ap (λ x. same x k) (same_eq key s.uid here))
      ];
      once = last_first (uids w.init) w.last.uid (subst Distinct ends d.1);
    }

front :
    (key : String) (s : Stage) (l : List Stage)
    → Keyed s
    → same key s.uid ≡ true
    → Distinct (uids (s ∷ l))
    → Without key (s ∷ l)
unfolding has
front key s [] keyed here d = record {
  rest = [];
  made = without_made key (s ∷ []) 0 s (index_here key s [] keyed here) refl;
  members =
      λ k. ground (arith, same_eq key s.uid here, ap (λ x. same x k) (same_eq key s.uid here));
  once = tt;
}
front key s (t ∷ l) keyed here d = front_moved key s t l keyed here d

behind :
    (key : String) (s : Stage) (l : List Stage)
    → Keyed s
    → same key s.uid ≡ false
    → has (uids l) s.uid ≡ false
    → Without key l
    → Without key (s ∷ l)
unfolding has split
behind key s [] keyed away new w =
    let e : none ≡ some w.rest = sym (nothing_left key) ∙ w.made in absurd cc
behind key s (t ∷ l) keyed away new w = elim (Option-cases (index_of key (t ∷ l))) [
  | inl missing ↦
      let e : none ≡ some w.rest = sym (nothing_made key (t ∷ l) missing) ∙ w.made in absurd cc
  | inr (i, found) ↦
      let u = split t l in
      let v = split s (t ∷ l) in
      let same_rest : some w.rest ≡ some (take (length (t ∷ l) - 1) (set (t ∷ l) i u.last)) =
        sym w.made ∙ without_made key (t ∷ l) i u.last found u.at_end in
      record {
        rest = s ∷ w.rest;
        made =
            without_made key (s ∷ t ∷ l) (suc i) u.last
              (index_next key s (t ∷ l) i keyed away found) v.at_end
            ∙ ap (λ n. some (take n (s ∷ set (t ∷ l) i u.last))) (shift l)
            ∙ ap (Option.map (λ m. s ∷ m)) (sym same_rest);
        members = λ k. ground (arith, w.members k, same_eq key k, same_eq s.uid k);
        once = ground (arith, w.once, w.members s.uid, new);
      }
]

pub without_stage_lem :
    (key : String) (l : List Stage)
    → All Keyed l
    → Distinct (uids l)
    → has (uids l) key ≡ true
    → Without key l
unfolding has
without_stage_lem key [] keyed d there = absurd cc
without_stage_lem key (s ∷ l) (first, keyed) d there = elim (Bool-cases (same key s.uid)) [
  | inl here ↦ front key s l first here d
  | inr away ↦
      behind key s l first away d.0
        (without_stage_lem key l keyed d.1 (ground (arith, same_eq key s.uid)))
]
