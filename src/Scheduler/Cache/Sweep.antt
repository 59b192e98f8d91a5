-- ===== src/Scheduler/Cache/Sweep.antt =====
-- cleanupAssumedStages: when it waits for its own lock.
use Prim.Native.String.{String}
use flowline.Base.{
  ℕ, ◌≡◌, refl, Bool, true, false, not, ◌&&◌, ◌||◌, ◌==◌, ltb, List, [], ◌∷◌, Option, none, some,
  arith, Option-cases, Bool-cases, inl, inr,
}
use flowline.Base.Keys.{text_key, has, lookup, same_refl}
use flowline.Base.Run.{ok}
use flowline.Scheduler.Cache.{StageState, Cache, finished}
use flowline.Scheduler.Cache.Api.{
  Locked, returned, waits_for_itself, cleanup_loop, cleanup_assumed_stages,
}
use flowline.Scheduler.Cache.Invariant.{Inv}

-- Whether a stage has expired at a time.
abbrev pub expired : ℕ → ℕ → Option StageState → Bool
expired ttl now none = false
expired ttl now (some state) =
    state.binding_finished
    && not (ttl == 0)
    && elim state.deadline [ none ↦ false | some deadline ↦ ltb deadline now ]

abbrev pub any_expired : Cache → ℕ → List String → Bool
any_expired c now [] = false
any_expired c now (key ∷ keys) =
    expired c.ttl now (lookup key c.stage_states) || any_expired c now keys

-- The end of a cleanup.
abbrev pub end_of : Bool → Cache → Locked
end_of true c = waits_for_itself
end_of false c = returned (finished c none)

cleanup_loop_ends :
    (c : Cache) (now : ℕ) (keys : List String)
    → Inv c
    → ((key : String) → has keys key ≡ true → has c.assumed_stages key ≡ true)
    → cleanup_loop true c now keys ≡ ok (end_of (any_expired c now keys) c)
unfolding cleanup_loop has
cleanup_loop_ends c now [] v assumed = refl
cleanup_loop_ends c now (key ∷ keys) v assumed =
    let rest = cleanup_loop_ends c now keys v (λ k h. assumed k (ground (arith, h))) in
    let first : has c.assumed_stages key ≡ true = assumed key (ground (arith, same_refl key)) in
    elim (Option-cases (lookup key c.stage_states)) [
      | inl missing ↦ absurd (ground (arith, v.assumed_known key first, missing))
      | inr (state, there) ↦ elim (Bool-cases (state.binding_finished && not (c.ttl == 0))) [
        | inr stays ↦ rw (cleanup_loop, any_expired, there, stays, rest) refl
        | inl bound ↦ elim (Option-cases state.deadline) [
          | inl undated ↦ absurd (ground (arith, v.dated key state first there bound, undated))
          | inr (deadline, dated) ↦ elim (Bool-cases (ltb deadline now)) [
            | inl late ↦ rw (cleanup_loop, there, bound, dated, late) refl
            | inr early ↦ rw (cleanup_loop, there, bound, dated, early, rest) refl
          ]
        ]
      ]
    ]

-- cleanupAssumedStages of a cache as every history of calls leaves it never removes a stage: if no
-- assumed stage has expired it leaves the cache as it is, and if one has, it waits for the lock that it
-- holds itself.
pub cleanup_expires_nothing :
    (c : Cache) (now : ℕ)
    → Inv c
    → cleanup_assumed_stages c now ≡ ok (end_of (any_expired c now c.assumed_stages) c)
unfolding cleanup_assumed_stages
cleanup_expires_nothing c now v = cleanup_loop_ends c now c.assumed_stages v (λ key h. h)
