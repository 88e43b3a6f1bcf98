-- ===== src/Agent/Runtime.antt =====
-- agent/runtime.py: what a run of the graph is made of, and the run.
pub mod Question
use nextbos_ai.Prelude.{
  ℕ, String, Bool, true, false, Option, none, some, List, [], ◌∷◌, ◌++◌, map, ◌==◌, Outcome, ok,
  raise, Exception, ExceptionClass, wren_context_error, other_error, ◌>>=◌, is_empty, if◌then◌else◌,
}
use nextbos_ai.Value.{Value, str, int, end, field}
use nextbos_ai.Llm.Models.{EffectiveModelConfig}
use nextbos_ai.Integrations.WrenTypes.{WrenProjectConfig}
use nextbos_ai.Integrations.Wren.{
  Tool, Toolkit, WrenLangChainContextClient, Step, create_sql_execution_client,
}
use nextbos_ai.Integrations.SqlExecutor.{QueryTool, execute_sql_sync}
use nextbos_ai.Agent.State.{AgentState, empty_state, Message, ChatModelOptions, message, human}
use nextbos_ai.Agent.World.{World, ChatModel, ModelRuntime}
use nextbos_ai.Agent.Nodes.Summarize.{SummaryOptions, SummarizationNode}
use nextbos_ai.Agent.Nodes.SqlExecute.{Executor}
use nextbos_ai.Agent.Graph.{Dependencies, WrenClient, GraphRun, invoke}
use nextbos_ai.Conversation.Tables.{ConversationMessage, ConversationSummary, Tables}
use nextbos_ai.Conversation.Repository.{Order}
use nextbos_ai.Conversation.ContextLoader.{load_messages}
use nextbos_ai.Services.StreamEvents.{EventBody, state, GraphStreamEvent}
use nextbos_ai.Services.Calls.{ChatCall, GraphStream}

-- The settings of core/config.py that the runtime reads; a path is a text.
pub record RuntimeSettings : Type 0 where
  pub summary_max_tokens : ℕ
  pub summary_trigger_tokens : ℕ
  pub summary_max_output_tokens : ℕ
  pub wren_project_path : String
  pub wren_profile : String
  pub wren_context_limit : ℕ
  pub wren_recall_limit : ℕ
  pub wren_include_memory_write : Bool

-- An item of `astream`: a pair of a mode and data, or data alone.
pub data StreamItem : Type 0 where
  with_mode : String → EventBody → StreamItem
  alone : EventBody → StreamItem

-- `_to_graph_stream_event`.
unfoldable pub to_graph_stream_event : StreamItem → GraphStreamEvent
to_graph_stream_event (with_mode mode body) = record { mode = mode; body = body }
to_graph_stream_event (alone body) = record { mode = "updates"; body = body }

-- `_create_wren_context_client`. The ranges of `WrenProjectConfig` are those of the settings that it is
-- made of, so its constructor raises nothing.
unfoldable pub create_wren_context_client : RuntimeSettings → Option WrenLangChainContextClient
create_wren_context_client s =
    if s.wren_project_path == ""
    then none
    else some (record {
      config = record {
        project_path = s.wren_project_path;
        profile = if s.wren_profile == "" then none else some s.wren_profile;
        context_limit = s.wren_context_limit;
        recall_limit = s.wren_recall_limit;
        include_memory_write = s.wren_include_memory_write;
        raise_on_error = true;
      };
      cached_toolkit = none;
      cached_tools = none;
    })

abbrev is_wren_context_error : ExceptionClass → Bool
is_wren_context_error wren_context_error = true
is_wren_context_error _ = false

-- `LangChainToolSqlExecutionClient(query_tool)`.
abbrev pub langchain_executor : World → Tool → Executor
langchain_executor w t =
    execute_sql_sync w
      (λ sql limit. t.invoke (field "sql" (str sql) (field "limit" (int limit) end)))

executor_or_none : World → Outcome Tool → Outcome (Option Executor)
executor_or_none w (ok t) = ok (some (langchain_executor w t))
executor_or_none w (raise e) = if is_wren_context_error e.class then ok none else raise e

-- The clients of a run: the Wren client after its tools were read, and the execution client.
pub record Clients : Type 0 where
  pub wren_context_client : Option WrenLangChainContextClient
  pub sql_execution_client : Option Executor

module _ (w : World) (load : WrenProjectConfig → Outcome Toolkit) where
  -- `_create_sql_execution_client`.
  unfoldable pub derive_sql_execution_client : Option WrenLangChainContextClient → Outcome Clients
  unfolding executor_or_none
  derive_sql_execution_client none =
      ok (record { wren_context_client = none; sql_execution_client = none })
  derive_sql_execution_client (some c) = do
    let made = create_sql_execution_client load c
    executor ← executor_or_none w made.result
    ok (record { wren_context_client = some made.client; sql_execution_client = executor })

-- `[HumanMessage(content=message)]`, and the stored context where it has messages.
abbrev pub asked : String → List Message
asked question = message human question ∷ []

abbrev pub stored_or_asked : List Message → String → List Message
stored_or_asked stored question = if is_empty stored then asked question else stored

-- The messages of the input: with a checkpoint the new one alone, and else the stored context.
unfoldable pub initial_messages : Bool → List Message → String → List Message
initial_messages checkpoint_exists stored question =
    if checkpoint_exists then asked question else stored_or_asked stored question

-- `PreparedGraphRun`: the arguments of `build_graph` that are made for the run, and its input.
pub record PreparedGraphRun : Type 0 where
  pub model_runtime : ModelRuntime
  pub summarization_model : ChatModel
  pub summary_options : SummaryOptions
  pub clients : Clients
  pub messages : List Message
  pub call : ChatCall

-- What the runtime is given: the model runtime over the profiles and settings, the loader of
-- wren-langchain, the database's orders, the checkpointer's state of a thread, and LangMem's node for
-- a model. The components of LangGraph and pydantic are those of `components`.
pub record Runtime : Type 0 where
  pub components : Dependencies
  pub settings : RuntimeSettings
  pub model_runtime : ModelRuntime
  pub load : WrenProjectConfig → Outcome Toolkit
  pub messages_order : Order ConversationMessage
  pub summaries_order : Order ConversationSummary
  pub checkpoint : String → Option AgentState
  pub summarization_node : ChatModel → SummarizationNode
  pub wren_client : WrenLangChainContextClient → WrenClient

abbrev pub is_present : {A : Type 0} → Option A → Bool
is_present none = false
is_present (some a) = true

module _ (r : Runtime) where
  -- `_prepare_graph_run`; the context loader reads at most 20 messages. The stored messages are read
  -- in both cases here, and after the clients are made: a reading changes nothing and does not fail.
  unfoldable pub prepare_graph_run : Tables → ChatCall → Outcome PreparedGraphRun
  unfolding initial_messages
  prepare_graph_run db c = do
    config ← r.model_runtime.resolve_config c.model_options
    model ← r.model_runtime.create_chat_model config
    clients ←
        derive_sql_execution_client r.components.world r.load
          (create_wren_context_client r.settings)
    ok (record {
      model_runtime = r.model_runtime;
      summarization_model = model;
      summary_options = record {
        max_tokens = r.settings.summary_max_tokens;
        trigger_tokens = r.settings.summary_trigger_tokens;
        max_output_tokens = r.settings.summary_max_output_tokens;
      };
      clients = clients;
      messages =
          initial_messages (is_present (r.checkpoint c.thread_id))
            (load_messages r.components.world r.messages_order r.summaries_order 20 c.thread_id db)
            c.message;
      call = c;
    })

  client_of : Option WrenLangChainContextClient → Option WrenClient
  client_of none = none
  client_of (some c) = some (r.wren_client c)

  -- `build_graph` with the clients and options of the run.
  unfoldable pub runnable : PreparedGraphRun → Dependencies
  unfolding client_of
  runnable p = record r.components {
    model_runtime = some p.model_runtime;
    summarization = some (r.summarization_node p.summarization_model);
    summary_options = some p.summary_options;
    wren_context_client = client_of p.clients.wren_context_client;
    sql_execution_client = p.clients.sql_execution_client;
  }

  state_or_empty : Option AgentState → AgentState
  state_or_empty none = empty_state
  state_or_empty (some s) = s

  -- The state that the run starts in: LangGraph puts the input over the state of the checkpoint.
  unfoldable pub start_state : PreparedGraphRun → AgentState
  unfolding state_or_empty
  start_state p =
      let before = state_or_empty (r.checkpoint p.call.thread_id) in
      record before {
        messages = r.components.add_messages before.messages p.messages;
        thread_id = some p.call.thread_id;
        user_id = some p.call.user_id;
        model_options = p.call.model_options;
      }

  result_of : Option (Outcome AgentState) → Outcome AgentState
  result_of none = raise (record { class = other_error; text = "recursion limit" })
  result_of (some o) = o

  -- `run_graph`.
  unfoldable pub run_graph : Tables → ChatCall → Outcome AgentState
  unfolding prepare_graph_run runnable start_state result_of
  run_graph db c = do
    p ← prepare_graph_run db c
    result_of (invoke (runnable p) (start_state p)).result

-- What `astream` yields before it ends with a state or raises.
pub record GraphItems : Type 0 where
  pub items : List StreamItem
  pub ended : Outcome AgentState

stream_of : GraphItems → GraphStream
stream_of g = elim g.ended [
  | raise e ↦ record { items = map to_graph_stream_event g.items; failure = some e }
  | ok s ↦ record {
    items =
        map to_graph_stream_event g.items ++ record { mode = "final_state"; body = state s } ∷ [];
    failure = none;
  }
]

streamed : (PreparedGraphRun → GraphItems) → Outcome PreparedGraphRun → GraphStream
unfolding stream_of
streamed astream (raise e) = record { items = []; failure = some e }
streamed astream (ok p) = stream_of (astream p)

-- `stream_graph`: the items of LangGraph's `astream`, and then the state of `aget_state`.
unfoldable pub stream_graph :
    Runtime → (PreparedGraphRun → GraphItems) → Tables → ChatCall → GraphStream
unfolding prepare_graph_run streamed to_graph_stream_event
stream_graph r astream db c = streamed astream (prepare_graph_run r db c)
