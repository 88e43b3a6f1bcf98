-- ===== src/Services/Calls.antt =====
-- services/agent_service.py: what a chat is called with, and the runs of the graph that it is given.
use nextbos_ai.Prelude.{ℕ, String, Option, none, some, List, Outcome, Exception}
use nextbos_ai.Agent.State.{AgentState, ChatModelOptions}
use nextbos_ai.Conversation.Tables.{Tables}
use nextbos_ai.Services.StreamEvents.{GraphStreamEvent}

-- The arguments of `chat` and `stream_chat`.
pub record ChatCall : Type 0 where
  pub thread_id : String
  pub user_id : String
  pub message : String
  pub model_options : Option ChatModelOptions
  pub trace_id : Option String

-- The id and the times that a transaction draws, and those of the transactions of a chat.
pub record Draw : Type 0 where
  pub id : String
  pub now : ℕ
  pub later : ℕ

pub record Draws : Type 0 where
  pub user : Draw
  pub assistant : Draw
  pub summary : Draw

-- `run_graph` reads the stored context from the tables. `stream_graph` yields events, and then ends
-- or raises.
abbrev pub RunGraph : Type 0
RunGraph = Tables → ChatCall → Outcome AgentState

pub record GraphStream : Type 0 where
  pub items : List GraphStreamEvent
  pub failure : Option Exception

abbrev pub StreamGraph : Type 0
StreamGraph = Tables → ChatCall → GraphStream

abbrev options_or_default : Option ChatModelOptions → ChatModelOptions
options_or_default none = record { model_alias = none; model_params = none }
options_or_default (some o) = o

-- `model_options or ChatModelOptions()`.
abbrev pub with_options : ChatCall → ChatCall
with_options c = record c { model_options = some (options_or_default c.model_options) }
