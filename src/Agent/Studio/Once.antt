-- ===== src/Agent/Studio/Once.antt =====
-- The schema is made once, however the calls interleave.
use nextbos_ai.Prelude.{
  ℕ, true, false, Option, none, some, ◌≡◌, refl, ◌≤◌, arith, Bool-cases, ◌⊎◌, inl, inr,
  some_injective, if◌then◌else◌, Outcome, ok, raise,
}
use nextbos_ai.Agent.Studio.{
  idle, waiting, initializing, passed, StudioModelRuntime, new_runtime, check_schema, enter_lock,
  leave_lock,
}

-- A step of one of the calls.
pub data Step : StudioModelRuntime → StudioModelRuntime → Type 0 where
  checks : (i : ℕ) (s : StudioModelRuntime) → s.phase i ≡ idle → Step s (check_schema i s)
  enters :
      (i : ℕ) (s : StudioModelRuntime)
      → s.phase i ≡ waiting
      → s.schema_lock ≡ none
      → Step s (enter_lock i s)
  leaves :
      (i : ℕ) (o : Outcome (Unit {0})) (s : StudioModelRuntime)
      → s.phase i ≡ initializing
      → Step s (leave_lock i o s)

pub data Reachable : StudioModelRuntime → Type 0 where
  created : Reachable new_runtime
  next : {s s' : StudioModelRuntime} → Reachable s → Step s s' → Reachable s'

-- What every reachable state keeps.
record Kept (s : StudioModelRuntime) : Type 0 where
  pub counted : s.completed ≡ (if s.schema_initialized then 1 else 0)
  pub passes : (i : ℕ) → s.phase i ≡ passed → s.schema_initialized ≡ true
  pub holds : (i : ℕ) → s.phase i ≡ initializing → s.schema_lock ≡ some i
  pub held : (i : ℕ) → s.schema_lock ≡ some i → s.phase i ≡ initializing
  pub pending : (i : ℕ) → s.phase i ≡ initializing → s.schema_initialized ≡ false

check-Kept : (i : ℕ) (s : StudioModelRuntime) → s.phase i ≡ idle → Kept s → Kept (check_schema i s)
unfolding check_schema
check-Kept i s idles k = record {
  counted = k.counted;
  passes = λ j h. ground (arith, k.passes j);
  holds = λ j h. ground (arith, k.holds j);
  held = λ j h. ground (arith, idles, k.held j h);
  pending = λ j h. ground (arith, k.pending j);
}

enter-Kept :
    (i : ℕ) (s : StudioModelRuntime)
    → s.phase i ≡ waiting
    → s.schema_lock ≡ none
    → Kept s
    → Kept (enter_lock i s)
unfolding enter_lock
enter-Kept i s waits free k = elim (Bool-cases s.schema_initialized) [
  | inl made ↦ record {
    counted = ground (arith, k.counted);
    passes = λ j h. ground (arith, k.passes j);
    holds = λ j h. ground (arith, k.holds j);
    held = λ j h. ground (arith);
    pending = λ j h. ground (arith, k.pending j);
  }
  | inr new ↦ record {
    counted = ground (arith, k.counted);
    passes = λ j h. ground (arith, k.passes j);
    holds = λ j h. ground (arith, k.holds j);
    held = λ j h. ground (arith);
    pending = λ j h. ground (arith, k.pending j);
  }
]

leave-Kept :
    (i : ℕ) (o : Outcome (Unit {0})) (s : StudioModelRuntime)
    → s.phase i ≡ initializing
    → Kept s
    → Kept (leave_lock i o s)
unfolding leave_lock
leave-Kept i (ok done) s runs k = record {
  counted = ground (arith, k.counted, k.pending i runs);
  passes = λ j h. refl;
  holds = λ j h. ground (arith, k.holds j, k.holds i runs);
  held = λ j h. ground (arith);
  pending = λ j h. ground (arith, k.holds j, k.holds i runs);
}
leave-Kept i (raise e) s runs k = record {
  counted = k.counted;
  passes = λ j h. ground (arith, k.passes j);
  holds = λ j h. ground (arith, k.holds j, k.holds i runs);
  held = λ j h. ground (arith);
  pending = λ j h. ground (arith, k.pending j);
}

step-Kept : (s s' : StudioModelRuntime) → Step s s' → Kept s → Kept s'
step-Kept _ _ (checks i s idles) k = check-Kept i s idles k
step-Kept _ _ (enters i s waits free) k = enter-Kept i s waits free k
step-Kept _ _ (leaves i o s runs) k = leave-Kept i o s runs k

reachable-Kept : (s : StudioModelRuntime) → Reachable s → Kept s
reachable-Kept _ created = record {
  counted = refl;
  passes = λ j h. ground (arith);
  holds = λ j h. ground (arith);
  held = λ j h. ground (arith);
  pending = λ j h. ground (arith);
}
reachable-Kept _ (next {s} {s'} before step) = step-Kept s s' step (reachable-Kept s before)

lock-cases : (lock : Option ℕ) → (lock ≡ none) ⊎ ((j : ℕ) × (lock ≡ some j))
lock-cases none = inl refl
lock-cases (some j) = inr (j, refl)

lock_left :
    (j : ℕ) (o : Outcome (Unit {0})) (s : StudioModelRuntime)
    → (leave_lock j o s).schema_lock ≡ none
unfolding leave_lock
lock_left j (ok done) s = refl
lock_left j (raise e) s = refl

-- In each state that the calls of `_ensure_schema` reach, however they interleave and whichever of
-- them fail: the schema was made at most once; a call that returned finds it made; at most one call
-- makes it, and it was not made before; and a call that waits can go on, or a call that makes the
-- schema frees the lock whether it fails or not.
pub reachable-IsOnce :
    (s : StudioModelRuntime)
    → Reachable s
    → (s.completed ≤ 1)
      × ((i : ℕ) → s.phase i ≡ passed → s.completed ≡ 1)
      × ((i j : ℕ)
          → s.phase i ≡ initializing
          → s.phase j ≡ initializing
          → (i ≡ j) × (s.completed ≡ 0))
      × ((i : ℕ)
          → s.phase i ≡ waiting
          → Step s (enter_lock i s)
            ⊎ ((j : ℕ) × ((o : Outcome (Unit {0}))
                  → Step s (leave_lock j o s) × ((leave_lock j o s).schema_lock ≡ none))))
unfolding leave_lock
reachable-IsOnce s reached =
    let k = reachable-Kept s reached in
    (
      ground (arith, k.counted),
      λ i h. ground (arith, k.counted, k.passes i h),
      λ i j h h'.
          (some_injective (k.holds i h) (k.holds j h'), ground (arith, k.counted, k.pending i h)),
      λ i h. elim (lock-cases s.schema_lock) [
        | inl free ↦ inl (enters i s h free)
        | inr (j, taken) ↦ inr (j, λ o. (leaves j o s (k.held j taken), lock_left j o s))
      ],
    )
