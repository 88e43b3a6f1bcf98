-- ===== src/Agent/State.antt =====
-- agent/state.py and agent/options.py: the state of the graph, and what a node writes to it.
use nextbos_ai.Prelude.{String, Option, none, List, [], ◌∷◌}
use nextbos_ai.Value.{Value, null, Fields, str}

-- The LangChain message classes that the program tests for.
pub data MessageKind : Type 0 where
  human ai system tool : MessageKind

-- A message: its class, its content (a text or a list of parts), and the optional attributes.
pub record Message : Type 0 where
  pub kind : MessageKind
  pub content : Value
  pub id : Option String
  pub tool_calls : List Fields
  pub name : Option String
  pub tool_call_id : Option String
  pub status : Option String

-- `AIMessage(content=…)` and its like.
abbrev pub message : MessageKind → String → Message
message k text = record {
  kind = k;
  content = str text;
  id = none;
  tool_calls = [];
  name = none;
  tool_call_id = none;
  status = none;
}

pub record ChatModelOptions : Type 0 where
  pub model_alias : Option String
  pub model_params : Option Fields

-- A key that is missing from the dictionary is `null`, `none` or `[]`: the program reads each key
-- with `get` and a default that these stand for.
pub record AgentState : Type 0 where
  pub messages : List Message
  pub summarized_messages : List Message
  pub context : Value
  pub user_id : Option String
  pub thread_id : Option String
  pub model_options : Option ChatModelOptions
  pub intent_decision : Value
  pub route_target : Value
  pub wren_context : Value
  pub wren_context_request : Value
  pub sql_generation_plan : Value
  pub sql_validation_result : Value
  pub sql_execution_result : Value
  pub sql_result_review : Value
  pub chart_plan_result : Value
  pub chart_spec_result : Value
  pub llm_snapshot_id : Option String

abbrev pub empty_state : AgentState
empty_state = record {
  messages = [];
  summarized_messages = [];
  context = null;
  user_id = none;
  thread_id = none;
  model_options = none;
  intent_decision = null;
  route_target = null;
  wren_context = null;
  wren_context_request = null;
  sql_generation_plan = null;
  sql_validation_result = null;
  sql_execution_result = null;
  sql_result_review = null;
  chart_plan_result = null;
  chart_spec_result = null;
  llm_snapshot_id = none;
}

-- One key of the dictionary that a node returns.
pub data Write : Type 0 where
  messages summarized_messages : List Message → Write
  intent_decision route_target wren_context wren_context_request : Value → Write
  sql_generation_plan sql_validation_result sql_execution_result : Value → Write
  sql_result_review chart_plan_result chart_spec_result : Value → Write
  llm_snapshot_id : Option String → Write

-- LangGraph's merge of an update into the state. `add_messages` is the reducer of `messages`; every
-- other key is overwritten.
module _ (add_messages : List Message → List Message → List Message) where
  unfoldable pub apply_write : AgentState → Write → AgentState
  apply_write s (messages ms) = record s { messages = add_messages s.messages ms }
  apply_write s (summarized_messages ms) = record s { summarized_messages = ms }
  apply_write s (intent_decision v) = record s { intent_decision = v }
  apply_write s (route_target v) = record s { route_target = v }
  apply_write s (wren_context v) = record s { wren_context = v }
  apply_write s (wren_context_request v) = record s { wren_context_request = v }
  apply_write s (sql_generation_plan v) = record s { sql_generation_plan = v }
  apply_write s (sql_validation_result v) = record s { sql_validation_result = v }
  apply_write s (sql_execution_result v) = record s { sql_execution_result = v }
  apply_write s (sql_result_review v) = record s { sql_result_review = v }
  apply_write s (chart_plan_result v) = record s { chart_plan_result = v }
  apply_write s (chart_spec_result v) = record s { chart_spec_result = v }
  apply_write s (llm_snapshot_id i) = record s { llm_snapshot_id = i }

  unfoldable pub apply_writes : AgentState → List Write → AgentState
  unfolding apply_write
  apply_writes s [] = s
  apply_writes s (w ∷ ws) = apply_writes (apply_write s w) ws
