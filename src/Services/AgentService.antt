-- ===== src/Services/AgentService.antt =====
-- services/agent_service.py: `AgentService`. A chat is a function of the tables: what it answers, or
-- the events that it yields, with the tables that it leaves. The runs of the graph are arguments.
pub mod Stored
pub mod Charts
pub mod Kept
pub mod Protocol
use nextbos_ai.Prelude.{
  ℕ, String, Bool, true, false, Option, none, some, List, [], ◌∷◌, ◌++◌, ◌==◌, ◌||◌, concat,
  is_empty, Outcome, ok, raise, Exception, type_error, if◌then◌else◌,
}
use nextbos_ai.Value.{Value, Object, int, str, Fields, end, field, opt_str}
use nextbos_ai.Agent.State.{AgentState, empty_state, ChatModelOptions}
use nextbos_ai.Agent.World.{World}
use nextbos_ai.Conversation.Tables.{Tables}
use nextbos_ai.Conversation.Repository.{
  append_message, user_message, assistant_message, save_summary,
}
use nextbos_ai.Conversation.Summary.{ExtractedConversationSummary, extract_running_summary}
use nextbos_ai.Services.Calls.{
  ChatCall, Draw, Draws, RunGraph, GraphStream, StreamGraph, with_options,
}
use nextbos_ai.Services.Contents.{extract_final_content}
use nextbos_ai.Services.StreamEvents.{
  EventBody, state, GraphStreamEvent, StreamEvent, extract_token,
}
use nextbos_ai.Services.StepEvents.{extract_agent_step_events}
use nextbos_ai.Services.ChartEvents.{extract_chart_event, extract_chart_update_events}
use nextbos_ai.Services.ToolEvents.{extract_tool_events}

-- `_append_user_message`.
unfoldable pub append_user_message : Draw → ChatCall → Tables → Tables
append_user_message d c db =
    append_message (user_message c.thread_id c.user_id c.message c.trace_id end) d.id d.now d.later
      db

unfoldable pub save_extracted :
    Draw → ChatCall → Option ExtractedConversationSummary → Tables → Tables
save_extracted d c none db = db
save_extracted d c (some s) db =
    save_summary
      (record {
        thread_id = c.thread_id;
        user_id = c.user_id;
        summary = s.summary;
        covered_through_message_id = s.covered_through_message_id;
        message_count = s.message_count;
        token_estimate = none;
        metadata = end;
      })
      d.id d.now d.later db

-- What the loop of `stream_chat` keeps, and what it yields up to its end.
pub record StreamState : Type 0 where
  pub accumulated_tokens : List String
  pub final_state : AgentState
  pub chart_emitted : Bool

pub record Streamed : Type 0 where
  pub yielded : List StreamEvent
  pub ended : Outcome StreamState

abbrev pub token_event : String → StreamEvent
token_event token = record {
  event = "token";
  body = field "type" (str "text") (field "content" (str token) end);
}

abbrev pub start_event : ChatCall → StreamEvent
start_event c = record {
  event = "start";
  body = field "code" (int 200) (
      field "status" (str "success")
        (field "thread_id" (str c.thread_id) (field "trace_id" (opt_str c.trace_id) end)));
}

abbrev pub done_event : String → StreamEvent
done_event content = record { event = "done"; body = field "content" (str content) end }

pub record ChatRun : Type 0 where
  pub tables : Tables
  pub result : Outcome String

-- A run of `stream_chat` that is read to its end.
pub record ChatStream : Type 0 where
  pub tables : Tables
  pub yielded : List StreamEvent
  pub failure : Option Exception

-- `dict(event.data or {})`.
abbrev state_of : EventBody → Outcome AgentState
state_of (state s) = ok s
state_of _ = raise (record { class = type_error; text = "not a dictionary" })

abbrev pub streamed_nothing : StreamState → Streamed
streamed_nothing st = record { yielded = []; ended = ok st }

abbrev pub initial : StreamState
initial = record { accumulated_tokens = []; final_state = empty_state; chart_emitted = false }

abbrev pub if_any : Option StreamEvent → List StreamEvent
if_any none = []
if_any (some e) = e ∷ []

module _ (w : World) where
  -- The branches of the loop: a token, an update, the final state.
  unfoldable pub on_messages : StreamState → EventBody → Streamed
  on_messages st body =
      let token = extract_token w body in
      if token == "" then streamed_nothing st else record {
        yielded = token_event token ∷ [];
        ended = ok (record st { accumulated_tokens = st.accumulated_tokens ++ token ∷ [] });
      }

  unfoldable pub on_updates : StreamState → EventBody → Outcome (List StreamEvent) → Streamed
  on_updates st body (raise e) = record { yielded = []; ended = raise e }
  on_updates st body (ok steps) =
      let charts = extract_chart_update_events w body in
      record {
        yielded = steps ++ charts ++ extract_tool_events w body;
        ended =
            ok (record st { chart_emitted = if is_empty charts then st.chart_emitted else true });
      }

  unfoldable pub on_final_state : StreamState → Outcome AgentState → Streamed
  on_final_state st (raise e) = record { yielded = []; ended = raise e }
  on_final_state st (ok s) = streamed_nothing (record st { final_state = s })

  unfoldable pub on_event : StreamState → GraphStreamEvent → Streamed
  unfolding on_messages on_updates on_final_state
  on_event st e =
      if e.mode == "messages"
      then on_messages st e.body
      else if e.mode == "updates"
      then on_updates st e.body (extract_agent_step_events w e.body)
      else if e.mode == "final_state"
      then on_final_state st (state_of e.body)
      else streamed_nothing st

  unfoldable pub and_then :
      List StreamEvent → Outcome StreamState → (StreamState → Streamed) → Streamed
  and_then yielded (raise e) rest = record { yielded = yielded; ended = raise e }
  and_then yielded (ok st) rest =
      let later = rest st in record { yielded = yielded ++ later.yielded; ended = later.ended }

  -- `async for event in stream_graph(…)`.
  unfoldable pub stream_loop : Option Exception → StreamState → List GraphStreamEvent → Streamed
  unfolding on_event and_then
  stream_loop none st [] = streamed_nothing st
  stream_loop (some e) st [] = record { yielded = []; ended = raise e }
  stream_loop failure st (e ∷ es) =
      let one = on_event st e in
      and_then one.yielded one.ended (λ next. stream_loop failure next es)

  -- `if not chart_emitted and (chart_event := _extract_chart_event(final_state))`.
  unfoldable pub late_chart : StreamState → List StreamEvent
  late_chart st = if st.chart_emitted then [] else if_any (extract_chart_event w st.final_state)

  -- `_extract_final_content(final_state) or "".join(accumulated_tokens)`.
  unfoldable pub content_of : StreamState → String
  content_of st =
      let content = extract_final_content w st.final_state in
      if content == "" then concat st.accumulated_tokens else content

  -- What LangMem's objects and `UUID` give.
  module _ (getattr : Object → String → Value) (uuid : String → Option String) where
    -- `_persist_assistant_result`.
    unfoldable pub persist_assistant_result :
        Draws → ChatCall → String → AgentState → Tables → Tables
    unfolding save_extracted
    persist_assistant_result d c content s db =
        save_extracted d.summary c (extract_running_summary getattr uuid s.context) (
          append_message
            (assistant_message c.thread_id c.user_id (some content) c.trace_id s.llm_snapshot_id
              end)
            d.assistant.id d.assistant.now d.assistant.later db)

    unfoldable pub finish_chat : Draws → ChatCall → Tables → Outcome AgentState → ChatRun
    unfolding persist_assistant_result
    finish_chat d c db (raise e) = record { tables = db; result = raise e }
    finish_chat d c db (ok s) =
        let content = extract_final_content w s in
        record { tables = persist_assistant_result d c content s db; result = ok content }

    -- `chat`.
    unfoldable pub chat : RunGraph → Draws → ChatCall → Tables → ChatRun
    unfolding append_user_message finish_chat
    chat run_graph d c db =
        let asked = append_user_message d.user c db in
        finish_chat d c asked (run_graph asked (with_options c))

    unfoldable pub finish_stream :
        Draws → ChatCall → Tables → List StreamEvent → Outcome StreamState → ChatStream
    unfolding persist_assistant_result late_chart content_of
    finish_stream d c db yielded (raise e) = record {
      tables = db;
      yielded = start_event c ∷ yielded;
      failure = some e;
    }
    finish_stream d c db yielded (ok st) =
        let content = content_of st in
        record {
          tables = persist_assistant_result d c content st.final_state db;
          yielded = start_event c ∷ yielded ++ late_chart st ++ done_event content ∷ [];
          failure = none;
        }

    -- `stream_chat`.
    unfoldable pub stream_chat : StreamGraph → Draws → ChatCall → Tables → ChatStream
    unfolding append_user_message stream_loop finish_stream
    stream_chat stream_graph d c db =
        let asked = append_user_message d.user c db in
        let stream = stream_graph asked (with_options c) in
        let loop = stream_loop stream.failure initial stream.items in
        finish_stream d c asked loop.yielded loop.ended
