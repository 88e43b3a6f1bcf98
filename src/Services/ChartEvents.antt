-- ===== src/Services/ChartEvents.antt =====
-- services/agent_service.py: the chart for the frontend, of an update or of the final state.
use nextbos_ai.Prelude.{String, Option, none, some, List, ◌==◌, filter_map, if◌then◌else◌}
use nextbos_ai.Value.{Value, str, Fields, end, field, get, or_else, as_dict, is_str, update}
use nextbos_ai.Agent.State.{AgentState}
use nextbos_ai.Agent.World.{World, text_of}
use nextbos_ai.Services.StreamEvents.{Update, NodeUpdate, EventBody, StreamEvent, updates_of}

-- `**{key: value for key, value in chart.items() if key != "type"}`.
unfoldable pub without : String → Fields → Fields
without k end = end
without k (field j v fs) = let rest = without k fs in if j == k then rest else field j v rest

unfoldable pub drawn_event : World → Option Fields → Option StreamEvent
unfolding without
drawn_event w none = none
drawn_event w (some chart) = some (record {
  event = "chart";
  body =
      update
        (field "type" (str "chart") (
          field "content_type" (str "echarts_option") (
            field "render_type" (str (text_of w (or_else (get "type" chart) (str "echarts"))))
              end)))
        (without "type" chart);
})

unfoldable pub event_of_spec : World → Option Fields → Option StreamEvent
unfolding drawn_event
event_of_spec w none = none
event_of_spec w (some result) =
    if is_str "succeeded" (get "status" result)
    then drawn_event w (as_dict (get "chart" result))
    else none

-- `_chart_event_from_spec_result`.
unfoldable pub chart_event_from_spec_result : World → Value → Option StreamEvent
unfolding event_of_spec
chart_event_from_spec_result w v = event_of_spec w (as_dict v)

-- `_extract_chart_event`.
unfoldable pub extract_chart_event : World → AgentState → Option StreamEvent
unfolding chart_event_from_spec_result
extract_chart_event w s = chart_event_from_spec_result w s.chart_spec_result

unfoldable pub chart_in : World → Option Update → Option StreamEvent
unfolding chart_event_from_spec_result
chart_in w none = none
chart_in w (some d) = chart_event_from_spec_result w (get "chart_spec_result" d.body)

unfoldable pub chart_of_update : World → NodeUpdate → Option StreamEvent
unfolding chart_in
chart_of_update w u = if u.node == "chart_spec" then chart_in w u.update else none

-- `_extract_chart_update_events`.
unfoldable pub extract_chart_update_events : World → EventBody → List StreamEvent
unfolding chart_of_update updates_of
extract_chart_update_events w body = filter_map (chart_of_update w) (updates_of body)
