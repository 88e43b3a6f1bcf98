-- ===== src/Services/StreamEvents.antt =====
-- agent/runtime.py `GraphStreamEvent`, and services/agent_service.py: the events of the graph and the
-- events for the frontend that are extracted of them; the tokens.
pub mod Tokens
use nextbos_ai.Prelude.{String, Bool, true, Option, none, some, List, [], ◌∷◌, ◌||◌, if◌then◌else◌}
use nextbos_ai.Value.{Value, str, Fields, end, field, get, as_dict, is_str, is_null, opt_str}
use nextbos_ai.Agent.State.{AgentState, Message, Write}
use nextbos_ai.Agent.World.{World}
use nextbos_ai.Services.Contents.{message_content_to_text}

-- The key `messages` of an update: missing or false, a list, or one message. A list's elements that
-- are no messages are left out, as the program passes over them.
pub data UpdateMessages : Type 0 where
  no_messages : UpdateMessages
  listed : List Message → UpdateMessages
  single : Message → UpdateMessages

-- An update that is a dictionary; the other keys are in `body`.
pub record Update : Type 0 where
  pub body : Fields
  pub messages : UpdateMessages

-- The name of a node with its update, `none` for one that is not a dictionary.
pub record NodeUpdate : Type 0 where
  pub node : String
  pub update : Option Update

-- What an event of the graph carries. The content of a chunk is the empty text where the chunk has
-- no such attribute.
pub data EventBody : Type 0 where
  chunk : Value → EventBody
  chunk_with : Value → Value → EventBody
  node_updates : List NodeUpdate → EventBody
  state : AgentState → EventBody

pub record GraphStreamEvent : Type 0 where
  pub mode : String
  pub body : EventBody

-- An event for the frontend: its name and its data.
pub record StreamEvent : Type 0 where
  pub event : String
  pub body : Fields

node_is_shown : Value → Bool
node_is_shown v = is_null v || is_str "respond" v || is_str "final_respond" v

metadata_is_shown : Option Fields → Bool
unfolding node_is_shown
metadata_is_shown none = true
metadata_is_shown (some metadata) = node_is_shown (get "langgraph_node" metadata)

-- `_is_frontend_token_event`.
unfoldable pub is_frontend_token_event : EventBody → Bool
unfolding metadata_is_shown
is_frontend_token_event (chunk_with content metadata) = metadata_is_shown (as_dict metadata)
is_frontend_token_event _ = true

content_of_chunk : EventBody → Value
content_of_chunk (chunk content) = content
content_of_chunk (chunk_with content metadata) = content
content_of_chunk _ = str ""

-- `_extract_token`.
unfoldable pub extract_token : World → EventBody → String
unfolding is_frontend_token_event content_of_chunk message_content_to_text
extract_token w body =
    if is_frontend_token_event body then message_content_to_text w (content_of_chunk body) else ""

unfoldable pub updates_of : EventBody → List NodeUpdate
updates_of (node_updates us) = us
updates_of _ = []

-- The key of a write, where it stands beside the messages. No event reads `summarized_messages`.
abbrev body_of_write : Write → Fields → Fields
body_of_write (Write.messages ms) fs = fs
body_of_write (Write.summarized_messages ms) fs = fs
body_of_write (Write.intent_decision v) fs = field "intent_decision" v fs
body_of_write (Write.route_target v) fs = field "route_target" v fs
body_of_write (Write.wren_context v) fs = field "wren_context" v fs
body_of_write (Write.wren_context_request v) fs = field "wren_context_request" v fs
body_of_write (Write.sql_generation_plan v) fs = field "sql_generation_plan" v fs
body_of_write (Write.sql_validation_result v) fs = field "sql_validation_result" v fs
body_of_write (Write.sql_execution_result v) fs = field "sql_execution_result" v fs
body_of_write (Write.sql_result_review v) fs = field "sql_result_review" v fs
body_of_write (Write.chart_plan_result v) fs = field "chart_plan_result" v fs
body_of_write (Write.chart_spec_result v) fs = field "chart_spec_result" v fs
body_of_write (Write.llm_snapshot_id i) fs = field "llm_snapshot_id" (opt_str i) fs

abbrev pub body_of_writes : List Write → Fields
body_of_writes [] = end
body_of_writes (w ∷ ws) = body_of_write w (body_of_writes ws)

abbrev messages_of_writes : List Write → UpdateMessages
messages_of_writes [] = no_messages
messages_of_writes (w ∷ ws) =
    let rest = messages_of_writes ws in elim w [ Write.messages ms ↦ listed ms | _ ↦ rest ]

-- The event that LangGraph gives for the update of a node.
abbrev pub update_event : String → List Write → GraphStreamEvent
update_event node ws = record {
  mode = "updates";
  body = node_updates (
      record {
        node = node;
        update = some (record { body = body_of_writes ws; messages = messages_of_writes ws });
      }
      ∷ []);
}
