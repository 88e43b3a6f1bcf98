-- ===== src/Testing/Examples/Services.antt =====
-- Examples for the agent service and the runtime.
use nextbos_ai.Prelude.{
  String, Option, none, some, List, [], ◌∷◌, ◌++◌, ◌≡◌, ◌≢◌, ne_of_test, refl, inl, inr, All, IsIn,
  last?, ok, Exception, timeout_error,
}
use nextbos_ai.Value.{Value, null, str, obj, Object, end, field}
use nextbos_ai.Schemas.Chart.{bar, ChartSpec, succeeded, dump_chart_spec_result}
use nextbos_ai.Agent.State.{AgentState, empty_state, human, ai, message, Write}
use nextbos_ai.Conversation.Repository.Counting.{no_rows}
use nextbos_ai.Services.Contents.{extract_final_content, message_content_to_text}
use nextbos_ai.Services.Steps.{
  agent_step_from_update, chart_spec_step, agent_step, dict_value, drop_none_values,
}
use nextbos_ai.Services.StreamEvents.{
  GraphStreamEvent, StreamEvent, chunk_with, update_event, updates_of,
}
use nextbos_ai.Services.StepEvents.{extract_agent_step_events, step_events_of}
use nextbos_ai.Services.Calls.{RunGraph, StreamGraph, ChatCall, Draws}
use nextbos_ai.Services.AgentService.{done_event, chat, stream_chat}
use nextbos_ai.Services.AgentService.Stored.{IsRunEvent, final_event, chat-stream_chat}
use nextbos_ai.Services.AgentService.Kept.{IsKeptChat, IsKeptStream, chat-IsKept}
use nextbos_ai.Services.AgentService.Protocol.{IsTrace, stream_chat-IsTrace}
use nextbos_ai.Services.AgentService.Charts.{stream_chat-HasChart}
use nextbos_ai.Schemas.SqlPlan.{dump_plan}
use nextbos_ai.Agent.Graph.{run_node, sql_plan}
use nextbos_ai.Services.Extracted.{run_node-IsRunEvent}
use nextbos_ai.Testing.Fixtures.{world, dependencies, start, plan}

abbrev pub no_attributes : Object → String → Value
no_attributes o name = null

abbrev pub no_uuid : String → Option String
no_uuid s = none

abbrev pub call : ChatCall
call = record {
  thread_id = "t";
  user_id = "alice";
  message = "sales by region";
  model_options = none;
  trace_id = some "trace";
}

abbrev pub draws : Draws
draws = record {
  user = record { id = "m1"; now = 5; later = 6 };
  assistant = record { id = "m2"; now = 7; later = 8 };
  summary = record { id = "s1"; now = 9; later = 9 };
}

abbrev drawn : ChartSpec
drawn = record {
  title = "Sales";
  chart_type = bar;
  option = end;
  source_fields = "region" ∷ "sales" ∷ [];
  row_count = 2;
}

abbrev pub drawn_result : Value
drawn_result =
    dump_chart_spec_result (record { status = succeeded; chart = some drawn; message = none })

abbrev final : AgentState
final = record empty_state {
  messages = message human "sales by region" ∷ message ai "answer" ∷ [];
  chart_spec_result = drawn_result;
}

abbrev run_events : List GraphStreamEvent
run_events =
    record {
      mode = "messages";
      body = chunk_with (str "ans") (obj (field "langgraph_node" (str "respond") end));
    }
    ∷ update_event "chart_spec" (Write.chart_spec_result drawn_result ∷ [])
    ∷ []

abbrev run_of : RunGraph
run_of db c = ok final

abbrev pub stream_of : StreamGraph
stream_of db c = record { items = run_events ++ final_event final ∷ []; failure = none }

abbrev chart_steps : List StreamEvent
unfolding chart_spec_step agent_step dict_value drop_none_values
chart_steps =
    record {
      event = "agent_step";
      body = chart_spec_step world (field "chart_spec_result" drawn_result end);
    }
    ∷ []

run_events-IsRunEvent : All (IsRunEvent world) run_events
unfolding extract_agent_step_events step_events_of updates_of agent_step_from_update chart_spec_step
    agent_step dict_value drop_none_values
run_events-IsRunEvent = (inl refl, (inr (refl, chart_steps, refl), tt))

answered-ne : extract_final_content world final ≢ ""
unfolding extract_final_content message_content_to_text
answered-ne = ne_of_test (extract_final_content world final) "" refl

chat-stream_chat_example :
    ((stream_chat world no_attributes no_uuid stream_of draws call no_rows).tables
      ≡ (chat world no_attributes no_uuid run_of draws call no_rows).tables)
    × ((chat world no_attributes no_uuid run_of draws call no_rows).result
        ≡ ok (extract_final_content world final))
    × (last? (stream_chat world no_attributes no_uuid stream_of draws call no_rows).yielded
        ≡ some (done_event (extract_final_content world final)))
    × ((stream_chat world no_attributes no_uuid stream_of draws call no_rows).failure ≡ none)
chat-stream_chat_example =
    chat-stream_chat world no_attributes no_uuid run_of stream_of draws call no_rows final
      run_events refl refl run_events-IsRunEvent answered-ne

-- A graph that raises in the middle of its stream.
abbrev timed_out : Exception
timed_out = record { class = timeout_error; text = "model" }

abbrev pub broken_stream : StreamGraph
broken_stream db c = record { items = run_events; failure = some timed_out }

chat-IsKept_example :
    IsKeptChat world no_attributes no_uuid draws call no_rows
      (chat world no_attributes no_uuid run_of draws call no_rows)
    × IsKeptStream world no_attributes no_uuid draws call no_rows
        (stream_chat world no_attributes no_uuid broken_stream draws call no_rows)
chat-IsKept_example =
    chat-IsKept world no_attributes no_uuid run_of broken_stream draws call no_rows

stream_chat-IsTrace_example :
    IsTrace world call
      (run_events ++ final_event final ∷ [])
      (stream_chat world no_attributes no_uuid stream_of draws call no_rows)
stream_chat-IsTrace_example =
    stream_chat-IsTrace world no_attributes no_uuid stream_of draws call no_rows

stream_chat-HasChart_example :
    (e : StreamEvent) × IsIn e
      (stream_chat world no_attributes no_uuid stream_of draws call no_rows).yielded
    × (e.event ≡ "chart")
stream_chat-HasChart_example =
    stream_chat-HasChart world no_attributes no_uuid stream_of draws call no_rows final run_events
      drawn none refl run_events-IsRunEvent refl

-- The update of the planning node, and its event.
abbrev plan_writes : List Write
plan_writes =
    Write.sql_generation_plan (dump_plan plan) ∷ Write.llm_snapshot_id (some "snapshot") ∷ []

planned : (run_node dependencies sql_plan start).result ≡ ok plan_writes
unfolding run_node nextbos_ai.Agent.Nodes.SqlPlan.sql_plan nextbos_ai.Schemas.SqlPlan.is_valid_plan
planned = refl

run_node-IsRunEvent_example : IsRunEvent world (update_event "sql_plan" plan_writes)
run_node-IsRunEvent_example =
    run_node-IsRunEvent world dependencies sql_plan start plan_writes planned
