-- ===== src/Services/ToolEvents.antt =====
-- services/agent_service.py: the events for calls of tools and for their results.
use nextbos_ai.Prelude.{
  Option, none, some, List, [], ◌∷◌, ◌++◌, ◌==◌, ◌<>◌, text_or, filter_map, if◌then◌else◌,
}
use nextbos_ai.Value.{str, Fields, end, field, get_or}
use nextbos_ai.Agent.State.{MessageKind, Message, ai, tool}
use nextbos_ai.Agent.World.{World, text_of}
use nextbos_ai.Services.Contents.{message_content_to_text}
use nextbos_ai.Services.StreamEvents.{
  UpdateMessages, no_messages, listed, single, Update, NodeUpdate, EventBody, StreamEvent,
  updates_of,
}

-- `_update_messages`.
unfoldable pub update_messages : Option Update → List Message
update_messages none = []
update_messages (some u) = messages_in u.messages
  where
    messages_in : UpdateMessages → List Message
    messages_in no_messages = []
    messages_in (listed ms) = ms
    messages_in (single m) = m ∷ []

unfoldable pub tool_start : World → Fields → Option StreamEvent
tool_start w call =
    let name = text_of w (get_or "name" (str "") call) in
    if name == ""
    then none
    else some (record {
      event = "tool_start";
      body = field "name" (str name) (
          field "tool_call_id" (str (text_of w (get_or "id" (str "") call)))
            (field "message" (str ("正在调用 " <> name)) end));
    })

unfoldable pub calls_of : Message → List Fields
calls_of m = elim m.kind [ ai ↦ m.tool_calls | _ ↦ [] ]

-- `_tool_start_events`.
unfoldable pub tool_starts : World → List Message → List StreamEvent
unfolding tool_start calls_of
tool_starts w [] = []
tool_starts w (m ∷ ms) = filter_map (tool_start w) (calls_of m) ++ tool_starts w ms

unfoldable pub tool_start_events : World → Option Update → List StreamEvent
unfolding tool_starts update_messages
tool_start_events w u = tool_starts w (update_messages u)

unfoldable pub tool_result : World → Message → StreamEvent
unfolding message_content_to_text
tool_result w m =
    let name = str (text_or m.name "") in
    let tool_call_id = str (text_or m.tool_call_id "") in
    let status = text_or m.status "success" in
    if status == "error"
    then record {
      event = "tool_error";
      body = field "name" name (
          field "tool_call_id" tool_call_id (
            field "status" (str status)
              (field "message" (str (message_content_to_text w m.content)) end)));
    }
    else record {
      event = "tool_end";
      body =
          field "name" name (field "tool_call_id" tool_call_id (field "status" (str status) end));
    }

unfoldable pub result_before : MessageKind → StreamEvent → List StreamEvent → List StreamEvent
result_before tool e es = e ∷ es
result_before _ e es = es

unfoldable pub tool_results : World → List Message → List StreamEvent
unfolding tool_result result_before
tool_results w [] = []
tool_results w (m ∷ ms) = result_before m.kind (tool_result w m) (tool_results w ms)

-- `_tool_result_events`.
unfoldable pub tool_result_events : World → Option Update → List StreamEvent
unfolding tool_results update_messages
tool_result_events w u = tool_results w (update_messages u)

unfoldable pub tool_events_of : World → List NodeUpdate → List StreamEvent
unfolding tool_start_events tool_result_events
tool_events_of w [] = []
tool_events_of w (u ∷ us) =
    (if u.node == "respond"
      then tool_start_events w u.update
      else if u.node == "tools"
      then tool_result_events w u.update
      else [])
    ++ tool_events_of w us

-- `_extract_tool_events`.
unfoldable pub extract_tool_events : World → EventBody → List StreamEvent
unfolding tool_events_of updates_of
extract_tool_events w body = tool_events_of w (updates_of body)
