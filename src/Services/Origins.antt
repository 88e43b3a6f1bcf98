-- ===== src/Services/Origins.antt =====
-- Where a token, and an event that is extracted of an update, comes from.
use nextbos_ai.Prelude.{
  String, Bool, true, false, Option, none, some, List, [], ◌∷◌, ◌++◌, ◌≡◌, ◌≢◌, refl, inl, inr, sym,
  ap, ◌⊎◌, >>=-eq-ok, ok_injective, some_injective, text_or, ◌==◌, arith, eq_iff, Bool-cases, IsIn,
  IsIn-append, IsIn-map, map, filter_map, ok, if◌then◌else◌, ne_of_test, eq-false_of_ne,
}
use mathlib.Core.Path.{subst}
use nextbos_ai.Value.{str, obj, Fields, get, get_or, as_dict, is_str}
use nextbos_ai.Value.Laws.{as_dict-eq-some, is_str-eq}
use nextbos_ai.Agent.State.{MessageKind, Message, human, ai, system, tool}
use nextbos_ai.Agent.World.{World, text_of}
use nextbos_ai.Services.StreamEvents.{StreamEvent, NodeUpdate, Update, EventBody, updates_of}
use nextbos_ai.Services.ToolEvents.{
  tool_start, calls_of, tool_starts, tool_result, result_before, tool_results, tool_events_of,
  tool_start_events, tool_result_events, extract_tool_events, update_messages,
}
use nextbos_ai.Services.ChartEvents.{
  chart_in, drawn_event, event_of_spec, chart_event_from_spec_result, chart_of_update,
  extract_chart_update_events,
}
use nextbos_ai.Services.StepEvents.{
  step_of_update, step_event, step_events_of, extract_agent_step_events,
}
use nextbos_ai.Conversation.ContextLoader.Restored.{IsIn-filter_map}
use nextbos_ai.Services.Named.{if_either}

-- An event that an update of a node gives.
pub data ComesFrom (w : World) (u : NodeUpdate) : StreamEvent → Type 0 where
  -- A step that `_agent_step_from_update` gives.
  step :
      (steps : List Fields) (f : Fields)
      → step_of_update w u ≡ ok steps
      → IsIn f steps
      → ComesFrom w u (record { event = "agent_step"; body = f })
  -- The chart of a succeeded result of the node `chart_spec`.
  drawn :
      (d : Update) (result chart : Fields) (e : StreamEvent)
      → u.node ≡ "chart_spec"
      → u.update ≡ some d
      → get "chart_spec_result" d.body ≡ obj result
      → get "status" result ≡ str "succeeded"
      → get "chart" result ≡ obj chart
      → e.event ≡ "chart"
      → ComesFrom w u e
  -- A call of a tool with a name, in a message of the model from the node `respond`.
  called :
      (m : Message) (call : Fields) (e : StreamEvent)
      → u.node ≡ "respond"
      → IsIn m (update_messages u.update)
      → m.kind ≡ ai
      → IsIn call m.tool_calls
      → text_of w (get_or "name" (str "") call) ≢ ""
      → e.event ≡ "tool_start"
      → get "name" e.body ≡ str (text_of w (get_or "name" (str "") call))
      → ComesFrom w u e
  -- The result of a tool, in a message of a tool from the node `tools`.
  answered :
      (m : Message) (e : StreamEvent)
      → u.node ≡ "tools"
      → IsIn m (update_messages u.update)
      → m.kind ≡ tool
      → (m.status ≡ some "error" → e.event ≡ "tool_error")
      → (m.status ≢ some "error" → e.event ≡ "tool_end")
      → get "name" e.body ≡ str (text_or m.name "")
      → ComesFrom w u e

module _ (w : World) where
  abbrev pub ComesFromOne : List NodeUpdate → StreamEvent → Type 0
  ComesFromOne us e = (u : NodeUpdate) × IsIn u us × ComesFrom w u e

  ComesFromOne-later :
      (u : NodeUpdate) (us : List NodeUpdate) (e : StreamEvent)
      → ComesFromOne us e
      → ComesFromOne (u ∷ us) e
  ComesFromOne-later u us e (v, i, c) = (v, inr i, c)

  step_events_of-ComesFrom :
      (us : List NodeUpdate) (es : List StreamEvent) (e : StreamEvent)
      → step_events_of w us ≡ ok es
      → IsIn e es
      → ComesFromOne us e
  unfolding step_events_of step_event
  step_events_of-ComesFrom [] es e h m = absurd (subst (IsIn e) (sym (ok_injective h)) m)
  step_events_of-ComesFrom (u ∷ us) es e h m =
      let (steps, a, h1) = >>=-eq-ok (step_of_update w u) _ h in
      let (later, b, h2) = >>=-eq-ok (step_events_of w us) _ h1 in
      elim (IsIn-append (map step_event steps) later e (subst (IsIn e) (sym (ok_injective h2)) m)) [
        | inl i ↦
            let (f, j, same) = IsIn-map step_event steps e i in
            (u, inl refl, subst (ComesFrom w u) (sym same) (step steps f a j))
        | inr i ↦ ComesFromOne-later u us e (step_events_of-ComesFrom us later e b i)
      ]

  drawn_event_inversion :
      (o : Option Fields) (e : StreamEvent)
      → drawn_event w o ≡ some e
      → (chart : Fields) × (o ≡ some chart) × (e.event ≡ "chart")
  unfolding drawn_event
  drawn_event_inversion none e h = cc
  drawn_event_inversion (some chart) e h =
      (chart, refl, sym (ap (λ x. x.event) (some_injective refl h)))

  if_then_inversion :
      {A : Type 0} (b : Bool) (o : Option A) (e : A)
      → (if b then o else none) ≡ some e
      → (b ≡ true) × (o ≡ some e)
  if_then_inversion true o e h = (refl, h)
  if_then_inversion false o e h = cc

  event_of_spec_inversion :
      (o : Option Fields) (e : StreamEvent)
      → event_of_spec w o ≡ some e
      → (result : Fields) × (chart : Fields) × (o ≡ some result)
        × (get "status" result ≡ str "succeeded")
        × (get "chart" result ≡ obj chart)
        × (e.event ≡ "chart")
  unfolding event_of_spec
  event_of_spec_inversion none e h = cc
  event_of_spec_inversion (some result) e h =
      let (succeeded, h1) = if_then_inversion (is_str "succeeded" (get "status" result)) _ e h in
      let (chart, found, name) = drawn_event_inversion (as_dict (get "chart" result)) e h1 in
      (
        result,
        chart,
        refl,
        is_str-eq "succeeded" (get "status" result) succeeded,
        as_dict-eq-some (get "chart" result) chart found,
        name,
      )

  chart_in-ComesFrom :
      (u : NodeUpdate) (o : Option Update) (e : StreamEvent)
      → u.node ≡ "chart_spec"
      → u.update ≡ o
      → chart_in w o ≡ some e
      → ComesFrom w u e
  unfolding chart_in chart_event_from_spec_result
  chart_in-ComesFrom u none e n q h = cc
  chart_in-ComesFrom u (some d) e n q h =
      let (result, chart, found, succeeded, drawn_chart, name) =
        event_of_spec_inversion (as_dict (get "chart_spec_result" d.body)) e h in
      drawn d result chart e n q (as_dict-eq-some (get "chart_spec_result" d.body) result found)
        succeeded drawn_chart name

  chart_of_update-ComesFrom :
      (u : NodeUpdate) (e : StreamEvent) → chart_of_update w u ≡ some e → ComesFrom w u e
  unfolding chart_of_update
  chart_of_update-ComesFrom u e h =
      let (n, h1) = if_then_inversion (u.node == "chart_spec") _ e h in
      chart_in-ComesFrom u u.update e (ground (arith, eq_iff u.node "chart_spec")) refl h1

  chart_events-ComesFrom :
      (us : List NodeUpdate) (e : StreamEvent)
      → IsIn e (filter_map (chart_of_update w) us)
      → ComesFromOne us e
  chart_events-ComesFrom us e m =
      let (u, i, h) = IsIn-filter_map (chart_of_update w) us e m in
      (u, i, chart_of_update-ComesFrom u e h)

  tool_start_inversion :
      (call : Fields) (e : StreamEvent)
      → tool_start w call ≡ some e
      → (text_of w (get_or "name" (str "") call) ≢ "")
        × (e.event ≡ "tool_start")
        × (get "name" e.body ≡ str (text_of w (get_or "name" (str "") call)))
  unfolding tool_start
  tool_start_inversion call e h =
      let (ne, same) = at_name (text_of w (get_or "name" (str "") call) == "") _ refl h in
      (ne, sym (ap (λ x. x.event) same), sym (ap (λ x. get "name" x.body) same))
    where
      at_name :
          (b : Bool) (x : StreamEvent)
          → (text_of w (get_or "name" (str "") call) == "") ≡ b
          → (if b then none else some x) ≡ some e
          → (text_of w (get_or "name" (str "") call) ≢ "") × (x ≡ e)
      at_name true x q k = cc
      at_name false x q k =
          (ne_of_test (text_of w (get_or "name" (str "") call)) "" q, some_injective refl k)

  calls_of_inversion :
      (m : Message) (call : Fields)
      → IsIn call (calls_of m)
      → (m.kind ≡ ai) × IsIn call m.tool_calls
  unfolding calls_of
  calls_of_inversion m call i = ground arith

  tool_starts_inversion :
      (ms : List Message) (e : StreamEvent)
      → IsIn e (tool_starts w ms)
      → (m : Message) × (call : Fields) × IsIn m ms
        × IsIn call (calls_of m)
        × (tool_start w call ≡ some e)
  unfolding tool_starts
  tool_starts_inversion [] e i = absurd i
  tool_starts_inversion (m ∷ ms) e i =
      elim (IsIn-append (filter_map (tool_start w) (calls_of m)) (tool_starts w ms) e i) [
        | inl j ↦
            let (call, k, h) = IsIn-filter_map (tool_start w) (calls_of m) e j in
            (m, call, inl refl, k, h)
        | inr j ↦ let (n, call, k, l, h) = tool_starts_inversion ms e j in (n, call, inr k, l, h)
      ]

  result_before_inversion :
      (k : MessageKind) (x e : StreamEvent) (es : List StreamEvent)
      → IsIn e (result_before k x es)
      → ((k ≡ tool) × (e ≡ x)) ⊎ IsIn e es
  unfolding result_before
  result_before_inversion tool x e es (inl q) = inl (refl, q)
  result_before_inversion tool x e es (inr i) = inr i
  result_before_inversion human x e es i = inr i
  result_before_inversion ai x e es i = inr i
  result_before_inversion system x e es i = inr i

  tool_results_inversion :
      (ms : List Message) (e : StreamEvent)
      → IsIn e (tool_results w ms)
      → (m : Message) × IsIn m ms × (m.kind ≡ tool) × (e ≡ tool_result w m)
  unfolding tool_results
  tool_results_inversion [] e i = absurd i
  tool_results_inversion (m ∷ ms) e i =
      elim (result_before_inversion m.kind (tool_result w m) e (tool_results w ms) i) [
        | inl (k, q) ↦ (m, inl refl, k, q)
        | inr j ↦ let (n, l, k, q) = tool_results_inversion ms e j in (n, inr l, k, q)
      ]

  status_of_error :
      (o : Option String)
      → (o ≡ some "error" → (text_or o "success" == "error") ≡ true)
        × (o ≢ some "error" → (text_or o "success" == "error") ≡ false)
  status_of_error none = (λ e. cc, λ ne. refl)
  status_of_error (some s) = (
    λ e. subst (λ o. (text_or o "success" == "error") ≡ true) (sym e) refl,
    λ ne. elim (Bool-cases (s == "")) [
      | inl e ↦ rw e refl
      | inr e ↦ rw e (eq-false_of_ne s "error" (λ q. ne (ap some q)))
    ],
  )

  tool_result_named :
      (m : Message)
      → (m.status ≡ some "error" → (tool_result w m).event ≡ "tool_error")
        × (m.status ≢ some "error" → (tool_result w m).event ≡ "tool_end")
        × (get "name" (tool_result w m).body ≡ str (text_or m.name ""))
  unfolding tool_result
  tool_result_named m =
      let (failed, fine) = status_of_error m.status in
      (
        λ e. rw (failed e) refl,
        λ ne. rw (fine ne) refl,
        if_either {A = StreamEvent} (λ x. get "name" x.body ≡ str (text_or m.name ""))
            (text_or m.status "success" == "error") _ _ refl refl,
      )

  tool_start_events-ComesFrom :
      (u : NodeUpdate) (e : StreamEvent)
      → u.node ≡ "respond"
      → IsIn e (tool_start_events w u.update)
      → ComesFrom w u e
  unfolding tool_start_events
  tool_start_events-ComesFrom u e n i =
      let (m, call, j, k, h) = tool_starts_inversion (update_messages u.update) e i in
      let (kind, listed) = calls_of_inversion m call k in
      let (ne, event, name) = tool_start_inversion call e h in
      called m call e n j kind listed ne event name

  tool_result_events-ComesFrom :
      (u : NodeUpdate) (e : StreamEvent)
      → u.node ≡ "tools"
      → IsIn e (tool_result_events w u.update)
      → ComesFrom w u e
  unfolding tool_result_events
  tool_result_events-ComesFrom u e n i =
      let (m, j, kind, same) = tool_results_inversion (update_messages u.update) e i in
      let (failed, fine, name) = tool_result_named m in
      subst (ComesFrom w u) (sym same) (answered m (tool_result w m) n j kind failed fine name)

  tool_events_of-ComesFrom :
      (us : List NodeUpdate) (e : StreamEvent) → IsIn e (tool_events_of w us) → ComesFromOne us e
  unfolding tool_events_of
  tool_events_of-ComesFrom [] e i = absurd i
  tool_events_of-ComesFrom (u ∷ us) e i =
      elim (IsIn-append
        (if u.node == "respond"
          then tool_start_events w u.update
          else if u.node == "tools"
          then tool_result_events w u.update
          else [])
        (tool_events_of w us) e i) [
          | inr j ↦ ComesFromOne-later u us e (tool_events_of-ComesFrom us e j)
          | inl j ↦ elim (Bool-cases (u.node == "respond")) [
            | inl a ↦ (
              u,
              inl refl,
              tool_start_events-ComesFrom u e (ground (arith, eq_iff u.node "respond")) (rw a at j),
            )
            | inr a ↦ elim (Bool-cases (u.node == "tools")) [
              | inl b ↦ (
                u,
                inl refl,
                tool_result_events-ComesFrom u e (ground (arith, eq_iff u.node "tools"))
                    (rw (a, b) at j),
              )
              | inr b ↦ absurd (rw (a, b) at j)
            ]
          ]
        ]

  -- Every event that is extracted of a stream's event comes from one of its updates.
  pub updates-ComesFrom :
      (body : EventBody) (steps : List StreamEvent) (e : StreamEvent)
      → extract_agent_step_events w body ≡ ok steps
      → IsIn e (steps ++ extract_chart_update_events w body ++ extract_tool_events w body)
      → ComesFromOne (updates_of body) e
  unfolding extract_agent_step_events extract_chart_update_events extract_tool_events
  updates-ComesFrom body steps e h i =
      elim (IsIn-append (steps ++ extract_chart_update_events w body) (extract_tool_events w body) e
        i) [
          | inr j ↦ tool_events_of-ComesFrom (updates_of body) e j
          | inl j ↦ elim (IsIn-append steps (extract_chart_update_events w body) e j) [
            | inl k ↦ step_events_of-ComesFrom (updates_of body) steps e h k
            | inr k ↦ chart_events-ComesFrom (updates_of body) e k
          ]
        ]
