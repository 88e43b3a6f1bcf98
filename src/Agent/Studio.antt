-- ===== src/Agent/Studio.antt =====
-- agent/studio_graph.py: `StudioModelRuntime`, whose calls make the tables before the first one reads
-- them. asyncio changes between calls at an `await`: at the lock and while the schema is made.
pub mod Once
use nextbos_ai.Prelude.{
  ℕ, suc, Bool, true, false, Option, none, some, nat_eq, if◌then◌else◌, Outcome, ok, raise,
}

-- Where a call of `_ensure_schema` stands.
pub data Phase : Type 0 where
  idle waiting initializing passed failed : Phase

-- The attributes of the runtime, the phase of each call, and how often the schema was made.
pub record StudioModelRuntime : Type 0 where
  pub schema_initialized : Bool
  pub schema_lock : Option ℕ
  pub phase : ℕ → Phase
  pub completed : ℕ

abbrev pub set_phase : ℕ → Phase → (ℕ → Phase) → ℕ → Phase
set_phase i p f j = if nat_eq i j then p else f j

abbrev pub new_runtime : StudioModelRuntime
new_runtime = record {
  schema_initialized = false;
  schema_lock = none;
  phase = λ i. idle;
  completed = 0;
}

-- The first test of `_ensure_schema`: it returns, or goes on to the lock.
unfoldable pub check_schema : ℕ → StudioModelRuntime → StudioModelRuntime
check_schema i s = record s {
  phase = set_phase i (if s.schema_initialized then passed else waiting) s.phase;
}

-- The lock is free and taken: the second test returns and frees it, or `initialize_schema` starts.
unfoldable pub enter_lock : ℕ → StudioModelRuntime → StudioModelRuntime
enter_lock i s =
    if s.schema_initialized
    then record s { phase = set_phase i passed s.phase }
    else record s { schema_lock = some i; phase = set_phase i initializing s.phase }

-- `initialize_schema` returns, or raises; the lock is freed in both cases.
unfoldable pub leave_lock : ℕ → Outcome (Unit {0}) → StudioModelRuntime → StudioModelRuntime
leave_lock i (ok done) s = record {
  schema_initialized = true;
  schema_lock = none;
  phase = set_phase i passed s.phase;
  completed = suc s.completed;
}
leave_lock i (raise e) s = record s { schema_lock = none; phase = set_phase i failed s.phase }
