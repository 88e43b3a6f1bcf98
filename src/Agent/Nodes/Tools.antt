-- ===== src/Agent/Nodes/Tools.antt =====
-- agent/nodes/tools.py: the events of the span around LangGraph's tool node.
use nextbos_ai.Prelude.{String, Option, none, some, List, [], ◌++◌, map, last?, Outcome, ok, raise}
use nextbos_ai.Value.{str, Fields, get_or}
use nextbos_ai.Agent.State.{AgentState, Message, MessageKind, ai, Write}
use nextbos_ai.Agent.World.{World, text_of}

pub data ToolEventKind : Type 0 where
  started failed completed : ToolEventKind

pub record ToolEvent : Type 0 where
  pub kind : ToolEventKind
  pub name : String
  pub call_id : String

-- What the node emits, and what it returns or raises.
pub record ToolRun : Type 0 where
  pub events : List ToolEvent
  pub result : Outcome (List Write)

calls_of : MessageKind → Message → List Fields
calls_of ai m = m.tool_calls
calls_of _ m = []

calls_of_last : Option Message → List Fields
unfolding calls_of
calls_of_last none = []
calls_of_last (some m) = calls_of m.kind m

unfoldable pub latest_tool_calls : AgentState → List Fields
unfolding calls_of_last
latest_tool_calls s = calls_of_last (last? s.messages)

module _ (w : World) where
  abbrev pub tool_event : ToolEventKind → Fields → ToolEvent
  tool_event k call = record {
    kind = k;
    name = text_of w (get_or "name" (str "") call);
    call_id = text_of w (get_or "id" (str "") call);
  }

  abbrev pub outcome_kind : Outcome (List Write) → ToolEventKind
  outcome_kind (ok ws) = completed
  outcome_kind (raise e) = failed

  -- The node: `tool_node` is LangGraph's, and what it returns or raises goes through.
  unfoldable pub tools : (AgentState → Outcome (List Write)) → AgentState → ToolRun
  unfolding latest_tool_calls
  tools tool_node s =
      let calls = latest_tool_calls s in
      let result = tool_node s in
      record {
        events = map (tool_event started) calls ++ map (tool_event (outcome_kind result)) calls;
        result = result;
      }
