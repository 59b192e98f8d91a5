-- ===== src/Scheduler/Types.antt =====
-- The types of pkg/scheduler/framework/types.go and pkg/api/meta/stage.go that the scheduling queue
-- works on. Times and durations are nanoseconds, and not negative.
use Prim.Native.Nat.{bit_and}
use Prim.Native.String.{String}
use flowline.Base.{
  ℕ, length, Bool, true, false, ◌&&◌, ◌||◌, not, ◌==◌, ltb, List, [], ◌∷◌, if◌then◌else◌,
}
use flowline.Base.Int.{ℤ, ltbℤ}
use flowline.Base.Keys.{text_key, same, has}

-- `content` stands for the fields that the scheduler passes on and only compares as a whole.
pub record Stage : Type 0 where
  pub name : String
  pub uid : String
  pub worker_uid : String
  pub resource_version : String
  pub generation : ℕ
  pub finalizers : List String
  pub priority : ℤ
  pub content : String

-- QueuedStageInfo
pub record StageInfo : Type 0 where
  pub stage : Stage
  pub timestamp : ℕ
  pub attempts : ℕ
  pub initial_attempt : ℕ
  pub unschedulable_plugins : List String

pub record ClusterEvent : Type 0 where
  pub resource : String
  pub action_type : ℕ
  pub label : String

-- The action types are bits: Add, Delete, and four for updates; All is their union.
abbrev pub all_actions : ℕ
all_actions = 0b111111

abbrev pub update_actions : ℕ
update_actions = 0b111100

-- IsWildCard
unfoldable pub is_wild_card : ClusterEvent → Bool
is_wild_card e = same e.resource "*" && e.action_type == all_actions

some_in : List String → List String → Bool
some_in [] y = false
some_in (v ∷ x) y = if has y v then true else some_in x y

-- Whether two sets of plugins have one in common.
unfoldable pub intersect : List String → List String → Bool
unfolding some_in
intersect x y = if ltb (length y) (length x) then some_in y x else some_in x y

-- Whether a registered event matches one that happened.
unfoldable pub event_matches : ClusterEvent → ClusterEvent → Bool
event_matches evt e =
    is_wild_card evt
    || (same evt.resource e.resource && not (bit_and evt.action_type e.action_type == 0))

-- Less of the PrioritySort plugin: a higher priority first, then the older.
unfoldable pub priority_less : StageInfo → StageInfo → Bool
priority_less a b =
    let p = a.stage.priority in
    let q = b.stage.priority in
    ltbℤ q p || ((not (ltbℤ p q) && not (ltbℤ q p)) && ltb a.timestamp b.timestamp)
