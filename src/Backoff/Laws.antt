-- ===== src/Backoff/Laws.antt =====
-- Backoff: closed form, bound, and garbage collection.
use Prim.Native.String.{String}
use flowline.Base.{
  min_double, length, ℕ, ◌+◌, ◌*◌, ◌^◌, ◌≤◌, ◌<◌, ◌≡◌, ◌∙◌, min, List, [], ◌∷◌, none, some, arith,
}
use flowline.Base.Keys.{text_key, lookup, lookup-store}
use flowline.Backoff.{
  Backoff, get, has_expired, int64_min, next, is_in_backoff_since, is_in_backoff_since_update,
  next_value,
}

lookup-next :
    (p : Backoff) (id : String) (event now : ℕ) (jitter : ℕ → ℕ)
    → lookup id (next p id event now jitter).per_item
      ≡ some
          (record { backoff = next_value p (lookup id p.per_item) event jitter; last_update = now })
unfolding next
lookup-next p id event now jitter = ground (
  arith,
  lookup-store id id
      (record { backoff = next_value p (lookup id p.per_item) event jitter; last_update = now })
      p.per_item,
)

-- Two states that no later call tells apart, for events that are not before a time.
pub record SameFrom (p q : Backoff) (from : ℕ) : Type 0 where
  pub since :
      (id : String) (event now : ℕ)
      → from ≤ event
      → is_in_backoff_since p id event now ≡ is_in_backoff_since q id event now
  pub since_update :
      (id : String) (event : ℕ)
      → from ≤ event
      → is_in_backoff_since_update p id event ≡ is_in_backoff_since_update q id event
  pub after_next :
      (id : String) (event now : ℕ) (jitter : ℕ → ℕ)
      → from ≤ event
      → lookup id (next p id event now jitter).per_item
        ≡ lookup id (next q id event now jitter).per_item

-- The calls of Next for one item, each with the time of its event and the clock's reading.
abbrev pub next_all : Backoff → String → List (ℕ × ℕ) → Backoff
next_all p id [] = p
next_all p id ((event, now) ∷ calls) = next_all (next p id event now (λ _. 0)) id calls

-- No event is later than twice the maximum after the call before it.
abbrev pub Steady : ℕ → ℕ → List (ℕ × ℕ) → Type 0
Steady max last [] = Unit {0}
Steady max last ((event, now) ∷ calls) = (event ≤ last + max * 2) × Steady max now calls

next_steady :
    (p : Backoff) (id : String) (d last event now : ℕ)
    → lookup id p.per_item ≡ some (record { backoff = d; last_update = last })
    → event ≤ last + p.max_duration * 2
    → d ≤ p.max_duration
    → p.max_duration < 2 ^ 62
    → lookup id (next p id event now (λ _. 0)).per_item
      ≡ some (record { backoff = min (d + d) p.max_duration; last_update = now })
unfolding next_value has_expired int64_min
next_steady p id d last event now e h below fits =
    ground (arith, lookup-next p id event now (λ _. 0))

next_all-value :
    (p : Backoff) (id : String) (d last : ℕ) (calls : List (ℕ × ℕ))
    → lookup id p.per_item ≡ some (record { backoff = d; last_update = last })
    → d ≤ p.max_duration
    → p.max_duration < 2 ^ 62
    → Steady p.max_duration last calls
    → get (next_all p id calls) id ≡ min (d * 2 ^ length calls) p.max_duration
unfolding get next
next_all-value p id d last [] e h fits s = ground arith
next_all-value p id d last ((event, now) ∷ calls) e h fits s =
    next_all-value (next p id event now (λ _. 0)) id (min (d + d) p.max_duration) now calls
      (next_steady p id d last event now e s.0 h fits) (omega arith) fits s.1
    ∙ min_double d (length calls) p.max_duration

-- Without jitter, for a default duration of at most the maximum, and a maximum of less than 2 ^ 62, twice
-- which an int64 holds: Next for an item without an entry,
-- followed by further calls of Next, no event later than twice the maximum after the call before it,
-- leaves a backoff of the default duration, doubled for each further call, and at most the maximum.
pub next_all-closed_form :
    (p : Backoff) (id : String) (event now : ℕ) (calls : List (ℕ × ℕ))
    → lookup id p.per_item ≡ none
    → p.default_duration ≤ p.max_duration
    → p.max_duration < 2 ^ 62
    → Steady p.max_duration now calls
    → get (next_all p id ((event, now) ∷ calls)) id
      ≡ min (p.default_duration * 2 ^ length calls) p.max_duration
unfolding next next_value
next_all-closed_form p id event now calls e h fits s =
    next_all-value (next p id event now (λ _. 0)) id p.default_duration now calls
      (ground (arith, lookup-next p id event now (λ _. 0))) h fits s
