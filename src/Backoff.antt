-- ===== src/Backoff.antt =====
-- pkg/util/flowcontrol/backoff.go: exponential backoff per item. Times and durations are
-- nanoseconds; `now` is the reading of the clock in a call. A duration is the 64 bits of an int64, so
-- it is negative from 2 ^ 63 on, and sums and products wrap around. The random jitter of a call enters as a
-- function of the delay, which is constantly 0 for a Backoff without a source of randomness.
mod Laws
mod Tests
use Prim.Native.String.{String}
use flowline.Base.{
  ℕ, ◌+◌, ◌-◌, ◌*◌, ◌%◌, ◌^◌, min, Bool, true, false, ltb, List, [], ◌∷◌, Option, none, some,
  if◌then◌else◌,
}
use flowline.Base.Keys.{text_key, lookup, store, erase}

pub record BackoffEntry : Type 0 where
  pub backoff : ℕ
  pub last_update : ℕ

pub record Backoff : Type 0 where
  pub default_duration : ℕ
  pub max_duration : ℕ
  pub per_item : List (String × BackoffEntry)

-- newBackoff
unfoldable pub new_backoff : ℕ → ℕ → Backoff
new_backoff initial max = record { default_duration = initial; max_duration = max; per_item = [] }

-- Get
unfoldable pub get : Backoff → String → ℕ
get p id = elim (lookup id p.per_item) [ none ↦ 0 | some entry ↦ entry.backoff ]

-- Durations in order: the least int64 is 0.
abbrev pub biased : ℕ → ℕ
biased d = (d + 2 ^ 63) % 2 ^ 64

-- Time.Sub, biased: it stops at the least and at the largest int64.
abbrev pub sub : ℕ → ℕ → ℕ
sub t u = min (2 ^ 63 + t - u) (2 ^ 64 - 1)

-- hasExpired
unfoldable pub has_expired : ℕ → ℕ → ℕ → Bool
has_expired event_time last_update max_duration =
    ltb (biased (max_duration * 2 % 2 ^ 64)) (sub event_time last_update)

-- Int64Min
unfoldable pub int64_min : ℕ → ℕ → ℕ
int64_min a b = if ltb (biased b) (biased a) then b else a

-- The entry after initEntryUnsafe and the first jitter.
abbrev first_backoff : Backoff → (ℕ → ℕ) → ℕ
first_backoff p jitter = (p.default_duration + jitter p.default_duration) % 2 ^ 64

abbrev next_backoff : Backoff → BackoffEntry → (ℕ → ℕ) → ℕ
next_backoff p entry jitter =
    int64_min ((entry.backoff * 2 % 2 ^ 64 + jitter entry.backoff) % 2 ^ 64) p.max_duration

-- The backoff that Next stores.
unfoldable pub next_value : Backoff → Option BackoffEntry → ℕ → (ℕ → ℕ) → ℕ
next_value p none event_time jitter = first_backoff p jitter
next_value p (some entry) event_time jitter =
    if has_expired event_time entry.last_update p.max_duration
    then first_backoff p jitter
    else next_backoff p entry jitter

-- Next
unfoldable pub next : Backoff → String → ℕ → ℕ → (ℕ → ℕ) → Backoff
next p id event_time now jitter = record p {
  per_item =
      store id
        (record {
          backoff = next_value p (lookup id p.per_item) event_time jitter;
          last_update = now;
        })
        p.per_item;
}

-- Reset and DeleteEntry
unfoldable pub reset : Backoff → String → Backoff
reset p id = record p { per_item = erase id p.per_item }

-- IsInBackOffSince
unfoldable pub is_in_backoff_since : Backoff → String → ℕ → ℕ → Bool
is_in_backoff_since p id event_time now = elim (lookup id p.per_item) [
  | none ↦ false
  | some entry ↦
      if has_expired event_time entry.last_update p.max_duration
      then false
      else ltb (sub now event_time) (biased entry.backoff)
]

-- IsInBackOffSinceUpdate
unfoldable pub is_in_backoff_since_update : Backoff → String → ℕ → Bool
is_in_backoff_since_update p id event_time = elim (lookup id p.per_item) [
  | none ↦ false
  | some entry ↦
      if has_expired event_time entry.last_update p.max_duration
      then false
      else ltb (sub event_time entry.last_update) (biased entry.backoff)
]

gc_loop : ℕ → ℕ → List (String × BackoffEntry) → List (String × BackoffEntry)
gc_loop max now [] = []
gc_loop max now ((id, entry) ∷ m) =
    if ltb (biased (max * 2 % 2 ^ 64)) (sub now entry.last_update)
    then gc_loop max now m
    else (id, entry) ∷ gc_loop max now m

-- GC
unfoldable pub gc : Backoff → ℕ → Backoff
unfolding gc_loop
gc p now = record p { per_item = gc_loop p.max_duration now p.per_item }
