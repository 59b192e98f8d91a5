-- ===== src/Backoff/Tests.antt =====
-- The backoff of an item at concrete inputs.
use flowline.Base.{◌≡◌, refl, true, min, ◌*◌, ◌^◌, [], ◌∷◌, arith}
use flowline.Base.Keys.{text_key, lookup}
use flowline.Backoff.{Backoff, new_backoff, get, has_expired}
use flowline.Backoff.Laws.{next_all, next_all-closed_form}

-- One entry, of an item that was tried at time 3.
abbrev tried : Backoff
tried = record (new_backoff 2 20) {
  per_item = ("build", record { backoff = 2; last_update = 3 }) ∷ [];
}

next_all-closed_form_example :
    get (next_all (new_backoff 2 20) "build" ((1, 3) ∷ (4, 5) ∷ (6, 7) ∷ [])) "build"
    ≡ min (2 * 2 ^ 2) 20
unfolding new_backoff lookup
next_all-closed_form_example =
    next_all-closed_form (new_backoff 2 20) "build" 1 3 ((4, 5) ∷ (6, 7) ∷ []) refl (omega arith)
      (omega arith) (omega arith, (omega arith, tt))

-- A maximum of 2 ^ 62 wraps: twice it is negative, and the backoff of every item has expired.
too_large : has_expired 5 5 (2 ^ 62) ≡ true
unfolding has_expired
too_large = refl
