-- ===== src/Services/AgentService/Charts.antt =====
-- The chart of a run reaches the frontend.
use nextbos_ai.Prelude.{
  String, true, false, Option, none, some, List, [], ◌∷◌, ◌++◌, ◌≡◌, refl, ◌⊎◌, inl, inr, ap, sym,
  ◌∙◌, ◌==◌, All, IsIn, Outcome, ok, raise, Exception, is_empty, ok_injective, Bool-cases,
  if◌then◌else◌,
}
use mathlib.Core.Path.{subst}
use nextbos_ai.Value.{Value, Object, end, field, int, str, obj, str_list}
use nextbos_ai.Schemas.Chart.{ChartSpec, succeeded, dump_chart_spec_result, chart_type_text}
use nextbos_ai.Agent.State.{AgentState}
use nextbos_ai.Agent.World.{World}
use nextbos_ai.Conversation.Tables.{Tables}
use nextbos_ai.Services.StreamEvents.{EventBody, GraphStreamEvent, StreamEvent, extract_token}
use nextbos_ai.Services.StepEvents.{extract_agent_step_events}
use nextbos_ai.Services.ChartEvents.{
  chart_event_from_spec_result, event_of_spec, drawn_event, without, extract_chart_event,
  extract_chart_update_events,
}
use nextbos_ai.Services.Named.{chart_updates-name, if_either}
use nextbos_ai.Services.Calls.{StreamGraph, ChatCall, Draws, with_options}
use nextbos_ai.Services.AgentService.{
  StreamState, Streamed, initial, on_event, on_messages, on_updates, on_final_state, and_then,
  stream_loop, late_chart, start_event, token_event, append_user_message, finish_stream,
  stream_chat,
}
use nextbos_ai.Services.AgentService.Stored.{
  IsRunEvent, final_event, stream_loop-final_state, stream_chat-finish_stream,
}

-- The event for a chart.
abbrev pub chart_event : ChartSpec → StreamEvent
chart_event c = record {
  event = "chart";
  body = field "type" (str "chart") (
      field "content_type" (str "echarts_option") (
        field "render_type" (str "echarts") (
          field "title" (str c.title) (
            field "chart_type" (str (chart_type_text c.chart_type)) (
              field "option" (obj c.option) (
                field "source_fields" (str_list c.source_fields)
                  (field "row_count" (int c.row_count) end)))))));
}

-- The chart of a succeeded result is the event for the frontend.
chart_event-dump :
    (w : World) (c : ChartSpec) (m : Option String)
    → chart_event_from_spec_result w
        (dump_chart_spec_result (record { status = succeeded; chart = some c; message = m }))
      ≡ some (chart_event c)
unfolding chart_event_from_spec_result event_of_spec drawn_event without
chart_event-dump w c m = refl

abbrev HasChart : List StreamEvent → Type 0
HasChart es = (e : StreamEvent) × IsIn e es × (e.event ≡ "chart")

HasChart-left : (xs ys : List StreamEvent) → HasChart xs → HasChart (xs ++ ys)
HasChart-left [] ys (e, m, p) = absurd m
HasChart-left (x ∷ xs) ys (e, inl q, p) = (e, inl q, p)
HasChart-left (x ∷ xs) ys (e, inr m, p) =
    let (f, n, q) = HasChart-left xs ys (e, m, p) in (f, inr n, q)

HasChart-right : (xs ys : List StreamEvent) → HasChart ys → HasChart (xs ++ ys)
HasChart-right [] ys h = h
HasChart-right (x ∷ xs) ys h = let (e, m, p) = HasChart-right xs ys h in (e, inr m, p)

HasChart-of_names :
    (es : List StreamEvent) → All (λ e. e.event ≡ "chart") es → is_empty es ≡ false → HasChart es
HasChart-of_names [] n h = cc
HasChart-of_names (e ∷ es) (p, n) h = (e, inl refl, p)

module _ (w : World) where
  -- Where an event sets the flag, it yields a chart.
  abbrev Flagged : StreamState → Streamed → Type 0
  Flagged st s =
      (next : StreamState)
      → s.ended ≡ ok next
      → next.chart_emitted ≡ true
      → (st.chart_emitted ≡ true) ⊎ HasChart s.yielded

  Flagged-same :
      (st next : StreamState) (es : List StreamEvent)
      → next.chart_emitted ≡ st.chart_emitted
      → Flagged st (record { yielded = es; ended = ok next })
  Flagged-same st next es e last h q =
      inl (sym e ∙ (ap (λ s. s.chart_emitted) (ok_injective h) ∙ q))

  on_messages-Flagged : (st : StreamState) (body : EventBody) → Flagged st (on_messages w st body)
  unfolding on_messages
  on_messages-Flagged st body =
      if_either (Flagged st) (extract_token w body == "") _ _ (Flagged-same st st [] refl)
        (Flagged-same st _ (token_event (extract_token w body) ∷ []) refl)

  on_updates-Flagged :
      (st : StreamState) (body : EventBody) (o : Outcome (List StreamEvent))
      → Flagged st (on_updates w st body o)
  unfolding on_updates
  on_updates-Flagged st body (raise e) = λ next h q. cc
  on_updates-Flagged st body (ok steps) = λ next h q.
      elim (Bool-cases (is_empty (extract_chart_update_events w body))) [
        | inl empty ↦ inl (
            sym (ap (λ b. if b then st.chart_emitted else true) empty)
            ∙ (ap (λ s. s.chart_emitted) (ok_injective h) ∙ q))
        | inr any ↦ inr (
            HasChart-left _ _
              (HasChart-right steps _ (HasChart-of_names _ (chart_updates-name w body) any)))
      ]

  on_final_state-Flagged :
      (st : StreamState) (o : Outcome AgentState) → Flagged st (on_final_state w st o)
  unfolding on_final_state
  on_final_state-Flagged st (raise e) = λ next h q. cc
  on_final_state-Flagged st (ok s) = Flagged-same st _ [] refl

  on_event-Flagged : (st : StreamState) (g : GraphStreamEvent) → Flagged st (on_event w st g)
  unfolding on_event
  on_event-Flagged st g =
      if_either (Flagged st) (g.mode == "messages") _ _ (on_messages-Flagged st g.body) (
        if_either (Flagged st) (g.mode == "updates") _ _
          (on_updates-Flagged st g.body (extract_agent_step_events w g.body))
          (if_either (Flagged st) (g.mode == "final_state") _ _ (on_final_state-Flagged st _)
            (Flagged-same st st [] refl)))

  and_then-Flagged :
      (st : StreamState) (es : List StreamEvent) (o : Outcome StreamState)
      (rest : StreamState → Streamed)
      → Flagged st (record { yielded = es; ended = o })
      → ((next : StreamState) → Flagged next (rest next))
      → Flagged st (and_then w es o rest)
  unfolding and_then
  and_then-Flagged st es (raise e) rest one later = λ next h q. cc
  and_then-Flagged st es (ok mid) rest one later = λ next h q. elim (later mid next h q) [
    | inl flagged ↦ elim (one mid refl flagged) [
      | inl before ↦ inl before
      | inr has ↦ inr (HasChart-left es (rest mid).yielded has)
    ]
    | inr has ↦ inr (HasChart-right es (rest mid).yielded has)
  ]

  stream_loop-Flagged :
      (failure : Option Exception) (st : StreamState) (gs : List GraphStreamEvent)
      → Flagged st (stream_loop w failure st gs)
  unfolding stream_loop
  stream_loop-Flagged none st [] = Flagged-same st st [] refl
  stream_loop-Flagged (some e) st [] = λ next h q. cc
  stream_loop-Flagged failure st (g ∷ gs) =
      and_then-Flagged st (on_event w st g).yielded (on_event w st g).ended
        (λ next. stream_loop w failure next gs) (on_event-Flagged st g)
        (λ next. stream_loop-Flagged failure next gs)

  late_chart-chart_event :
      (last : StreamState) (e : StreamEvent)
      → last.chart_emitted ≡ false
      → extract_chart_event w last.final_state ≡ some e
      → late_chart w last ≡ e ∷ []
  unfolding late_chart
  late_chart-chart_event last e unset h = rw (unset, h)

  -- What a stream yields in the end has a chart, if the flag is set or the final state has one.
  late_chart-HasChart :
      (last : StreamState) (c : ChartSpec)
      → extract_chart_event w last.final_state ≡ some (chart_event c)
      → (last.chart_emitted ≡ true) ⊎ HasChart (late_chart w last)
  late_chart-HasChart last c h = elim (Bool-cases last.chart_emitted) [
    | inl set ↦ inl set
    | inr unset ↦ inr (
        subst HasChart (sym (late_chart-chart_event last _ unset h))
          (chart_event c, inl refl, refl))
  ]

extract_chart_event-dump :
    (w : World) (s : AgentState) (c : ChartSpec) (m : Option String)
    → s.chart_spec_result
      ≡ dump_chart_spec_result (record { status = succeeded; chart = some c; message = m })
    → extract_chart_event w s ≡ some (chart_event c)
unfolding extract_chart_event
extract_chart_event-dump w s c m h = ap (chart_event_from_spec_result w) h ∙ chart_event-dump w c m

module _ (w : World) (getattr : Object → String → Value) (uuid : String → Option String) where
  finish_stream-HasChart :
      (d : Draws) (c : ChatCall) (asked : Tables) (yielded : List StreamEvent) (last : StreamState)
      → HasChart yielded ⊎ HasChart (late_chart w last)
      → HasChart (finish_stream w getattr uuid d c asked yielded (ok last)).yielded
  unfolding finish_stream
  finish_stream-HasChart d c asked yielded last (inl has) =
      HasChart-right (start_event c ∷ []) _
        (HasChart-left (yielded ++ late_chart w last) _ (HasChart-left yielded _ has))
  finish_stream-HasChart d c asked yielded last (inr has) =
      HasChart-right (start_event c ∷ []) _
        (HasChart-left (yielded ++ late_chart w last) _ (HasChart-right yielded _ has))

  -- Where a run is streamed as messages and updates and then a final state, without an exception,
  -- and that state holds the dump of a succeeded chart, the frontend is sent an event `chart`.
  pub stream_chat-HasChart :
      (stream_graph : StreamGraph) (d : Draws) (c : ChatCall) (db : Tables) (s : AgentState)
      (es : List GraphStreamEvent) (chart : ChartSpec) (m : Option String)
      → stream_graph (append_user_message d.user c db) (with_options c)
        ≡ record { items = es ++ final_event s ∷ []; failure = none }
      → All (IsRunEvent w) es
      → s.chart_spec_result
        ≡ dump_chart_spec_result (record { status = succeeded; chart = some chart; message = m })
      → (e : StreamEvent) × IsIn e (stream_chat w getattr uuid stream_graph d c db).yielded
        × (e.event ≡ "chart")
  stream_chat-HasChart stream_graph d c db s es chart m k run h =
      let items = es ++ final_event s ∷ [] in
      let (last, ended, same) = stream_loop-final_state w initial es s run in
      let streamed =
        stream_chat-finish_stream w getattr uuid stream_graph d c db items none last k ended in
      let drawn : extract_chart_event w last.final_state ≡ some (chart_event chart) =
        ap (extract_chart_event w) same ∙ extract_chart_event-dump w s chart m h in
      subst (λ r. HasChart r.yielded) (sym streamed)
        (finish_stream-HasChart d c (append_user_message d.user c db)
          (stream_loop w none initial items).yielded last
          (elim (late_chart-HasChart w last chart drawn) [
            | inl set ↦ elim (stream_loop-Flagged w none initial items last ended set) [
              | inl never ↦ cc
              | inr has ↦ inl has
            ]
            | inr has ↦ inr has
          ]))
