-- ===== src/Testing/Examples/Runtime.antt =====
-- Examples for the runtime, and for what a run carries over from a checkpoint.
use nextbos_ai.Prelude.{
  false, none, some, [], ◌∷◌, ◌≡◌, refl, inl, inr, IsIn, last?, ok, raise, other_error, arith, ap,
  ℕ, ◌⊎◌, ◌≤◌, Outcome,
}
use mathlib.Core.Path.{subst}
use nextbos_ai.Value.{end}
use nextbos_ai.Agent.State.{AgentState, human, ai, message, Write}
use nextbos_ai.Agent.Graph.{
  Dependencies, NodeName, chart_spec, summarize, respond, invoke, run_node, next_node,
}
use nextbos_ai.Agent.Graph.Carried.{OthersKeepChart, KeepsChart-ok, invoke-chart_spec_result}
use nextbos_ai.Conversation.Tables.{Tables}
use nextbos_ai.Conversation.Repository.{append_message, user_message}
use nextbos_ai.Conversation.Repository.Counting.{no_rows}
use nextbos_ai.Conversation.ContextLoader.{load_messages}
use nextbos_ai.Services.AgentService.{append_user_message}
use nextbos_ai.Agent.Runtime.{
  RuntimeSettings, Runtime, PreparedGraphRun, prepare_graph_run, initial_messages,
  create_wren_context_client, derive_sql_execution_client,
}
use nextbos_ai.Agent.Runtime.Question.{IsLatest, IsQuestion, prepare_graph_run-IsQuestion}
use nextbos_ai.Agent.Studio.{
  StudioModelRuntime, new_runtime, passed, waiting, initializing, check_schema, enter_lock,
  leave_lock,
}
use nextbos_ai.Agent.Studio.Once.{
  Step, Reachable, created, next, checks, enters, leaves, reachable-IsOnce,
}
use nextbos_ai.Testing.Fixtures.{world, dependencies, start, runtime, chat_model, wren}
use nextbos_ai.Testing.Sorting.{insertion}
use nextbos_ai.Testing.Examples.Services.{call, draws, drawn_result}

abbrev settings : RuntimeSettings
settings = record {
  summary_max_tokens = 8000;
  summary_trigger_tokens = 6000;
  summary_max_output_tokens = 800;
  wren_project_path = "";
  wren_profile = "";
  wren_context_limit = 5;
  wren_recall_limit = 3;
  wren_include_memory_write = false;
}

-- A runtime without a checkpoint for any thread.
abbrev restored : Runtime
restored = record {
  components = dependencies;
  settings = settings;
  model_runtime = runtime;
  load = λ c. raise (record { class = other_error; text = "not installed" });
  messages_order = insertion;
  summaries_order = insertion;
  checkpoint = λ t. none;
  summarization_node = λ m o s. ok [];
  wren_client = λ c. wren;
}

-- An earlier message of the thread.
abbrev earlier : Tables
earlier = append_message (user_message "t" "alice" "hello" none end) "m0" 1 1 no_rows

earlier-IsLatest : IsLatest 5 "t" earlier
unfolding append_message
earlier-IsLatest m (inl e) same = omega (arith, ap (λ x. x.created_at) e)
earlier-IsLatest m (inr i) same = absurd i

abbrev prepared : PreparedGraphRun
prepared = record {
  model_runtime = runtime;
  summarization_model = chat_model;
  summary_options = record { max_tokens = 8000; trigger_tokens = 6000; max_output_tokens = 800 };
  clients = record { wren_context_client = none; sql_execution_client = none };
  messages =
      initial_messages false
        (load_messages world insertion insertion 20 "t"
          (append_user_message draws.user call earlier))
        "sales by region";
  call = call;
}

is_prepared :
    prepare_graph_run restored (append_user_message draws.user call earlier) call ≡ ok prepared
unfolding prepare_graph_run create_wren_context_client derive_sql_execution_client
is_prepared = refl

prepare_graph_run-IsQuestion_example : IsQuestion call (last? prepared.messages)
prepare_graph_run-IsQuestion_example =
    prepare_graph_run-IsQuestion restored draws call earlier prepared earlier-IsLatest is_prepared

-- A graph that answers with an echo, in a state that holds an earlier chart.
abbrev echo : Dependencies
echo = record dependencies { model_runtime = none }

abbrev carried : AgentState
carried = record start { chart_spec_result = drawn_result }

abbrev echoed : AgentState
echoed = record carried {
  messages = message human "sales by region?" ∷ message ai "已收到：sales by region?" ∷ [];
  summarized_messages = message human "sales by region?" ∷ [];
}

echo-keeps : OthersKeepChart echo
echo-keeps = record {
  tool_node_keeps = λ s. KeepsChart-ok [] refl;
  summarization_keeps = λ n o s e. cc;
}

echo-ends : (invoke echo carried).result ≡ some (ok echoed)
unfolding invoke run_node next_node nextbos_ai.Agent.Nodes.Summarize.summarize
    nextbos_ai.Agent.State.apply_writes nextbos_ai.Agent.Graph.fallback_respond
echo-ends = refl

echo-visits : (invoke echo carried).visited ≡ summarize ∷ respond ∷ []
unfolding invoke run_node next_node nextbos_ai.Agent.Nodes.Summarize.summarize
    nextbos_ai.Agent.State.apply_writes nextbos_ai.Agent.Graph.fallback_respond
echo-visits = refl

two_visits : IsIn chart_spec (summarize ∷ respond ∷ []) → ⊥
two_visits (inl e) = ground arith
two_visits (inr (inl e)) = ground arith
two_visits (inr (inr e)) = e

invoke-chart_spec_result_example : echoed.chart_spec_result ≡ drawn_result
invoke-chart_spec_result_example =
    invoke-chart_spec_result echo carried echoed echo-keeps echo-ends
      (λ i. two_visits (subst (IsIn chart_spec) echo-visits i))

-- Two calls wait; the first one fails to make the schema.
abbrev both_wait : StudioModelRuntime
both_wait = check_schema 1 (check_schema 0 new_runtime)

abbrev first_failed : StudioModelRuntime
first_failed =
    leave_lock 0 (raise (record { class = other_error; text = "no database" }))
      (enter_lock 0 both_wait)

first_failed-Reachable : Reachable first_failed
unfolding check_schema enter_lock leave_lock
first_failed-Reachable =
    next
      (next
        (next (next created (checks 0 new_runtime refl))
          (checks 1 (check_schema 0 new_runtime) refl))
        (enters 0 both_wait refl refl))
      (leaves 0 (raise (record { class = other_error; text = "no database" }))
        (enter_lock 0 both_wait) refl)

-- The second call can still make it.
reachable-IsOnce_example :
    (first_failed.completed ≤ 1)
    × ((i : ℕ) → first_failed.phase i ≡ passed → first_failed.completed ≡ 1)
    × ((i j : ℕ)
        → first_failed.phase i ≡ initializing
        → first_failed.phase j ≡ initializing
        → (i ≡ j) × (first_failed.completed ≡ 0))
    × ((i : ℕ)
        → first_failed.phase i ≡ waiting
        → Step first_failed (enter_lock i first_failed)
          ⊎ ((j : ℕ) × ((o : Outcome (Unit {0}))
                → Step first_failed (leave_lock j o first_failed)
                  × ((leave_lock j o first_failed).schema_lock ≡ none))))
reachable-IsOnce_example = reachable-IsOnce first_failed first_failed-Reachable
