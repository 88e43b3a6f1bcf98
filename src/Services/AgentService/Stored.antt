-- ===== src/Services/AgentService/Stored.antt =====
-- What a chat and a streamed chat leave in the tables.
use nextbos_ai.Prelude.{
  String, Option, none, some, List, [], ◌∷◌, ◌++◌, ◌≡◌, ◌≢◌, refl, ◌⊎◌, inl, inr, ap, sym, ◌∙◌,
  arith, eq_iff, ◌==◌, Bool-cases, All, last?, last?-cons, last?-append, ok, Exception,
}
use nextbos_ai.Value.{Value, Object}
use nextbos_ai.Agent.State.{AgentState}
use nextbos_ai.Agent.World.{World}
use nextbos_ai.Conversation.Tables.{Tables}
use nextbos_ai.Services.Contents.{extract_final_content}
use nextbos_ai.Services.StreamEvents.{state, GraphStreamEvent, StreamEvent, extract_token}
use nextbos_ai.Services.StepEvents.{extract_agent_step_events}
use nextbos_ai.Services.Calls.{RunGraph, StreamGraph, ChatCall, Draws, with_options}
use nextbos_ai.Services.AgentService.{
  finish_chat, finish_stream, initial, StreamState, on_event, on_messages, on_updates, and_then,
  on_final_state, stream_loop, content_of, late_chart, start_event, done_event, append_user_message,
  persist_assistant_result, chat, stream_chat,
}

-- An event that LangGraph gives while it runs: of a message, or of an update of which the steps are
-- extracted without an exception.
abbrev pub IsRunEvent : World → GraphStreamEvent → Type 0
IsRunEvent w e =
    (e.mode ≡ "messages")
    ⊎ ((e.mode ≡ "updates")
        × (steps : List StreamEvent) × (extract_agent_step_events w e.body ≡ ok steps))

abbrev pub final_event : AgentState → GraphStreamEvent
final_event s = record { mode = "final_state"; body = state s }

module _ (w : World) where
  on_messages-ends :
      (st : StreamState) (e : GraphStreamEvent)
      → (next : StreamState) × ((on_messages w st e.body).ended ≡ ok next)
  unfolding on_messages
  on_messages-ends st e = elim (Bool-cases (extract_token w e.body == "")) [
    | inl q ↦ (st, ground arith)
    | inr q ↦ (
      record st { accumulated_tokens = st.accumulated_tokens ++ extract_token w e.body ∷ [] },
      ground arith,
    )
  ]

  on_event-messages :
      (st : StreamState) (e : GraphStreamEvent)
      → e.mode ≡ "messages"
      → on_event w st e ≡ on_messages w st e.body
  unfolding on_event
  on_event-messages st e m = rw m

  on_event-updates :
      (st : StreamState) (e : GraphStreamEvent)
      → e.mode ≡ "updates"
      → on_event w st e ≡ on_updates w st e.body (extract_agent_step_events w e.body)
  unfolding on_event
  on_event-updates st e m = rw m

  on_event-ends :
      (st : StreamState) (e : GraphStreamEvent)
      → IsRunEvent w e
      → (next : StreamState) × ((on_event w st e).ended ≡ ok next)
  unfolding on_updates
  on_event-ends st e (inl m) =
      let (next, h) = on_messages-ends st e in
      (next, ap (λ r. r.ended) (on_event-messages st e m) ∙ h)
  on_event-ends st e (inr (m, steps, h)) =
      (_, ap (λ r. r.ended) (on_event-updates st e m ∙ ap (on_updates w st e.body) h))

  -- The loop ends with the state of the final event.
  pub stream_loop-final_state :
      (st : StreamState) (es : List GraphStreamEvent) (s : AgentState)
      → All (IsRunEvent w) es
      → (last : StreamState) × ((stream_loop w none st (es ++ final_event s ∷ [])).ended ≡ ok last)
        × (last.final_state ≡ s)
  unfolding stream_loop on_event on_final_state and_then
  stream_loop-final_state st [] s run = (record st { final_state = s }, refl, refl)
  stream_loop-final_state st (e ∷ es) s (one, run) =
      let (next, h) = on_event-ends st e one in
      let (last, k, q) = stream_loop-final_state next es s run in (last, ground (arith, h, k), q)

  content_of-extract_final_content :
      (st : StreamState) (s : AgentState)
      → st.final_state ≡ s
      → extract_final_content w s ≢ ""
      → content_of w st ≡ extract_final_content w s
  unfolding content_of
  content_of-extract_final_content st s h ne = ground (arith, eq_iff (extract_final_content w s) "")

module _ (w : World) (getattr : Object → String → Value) (uuid : String → Option String) where
  last?-finish_stream :
      (d : Draws) (c : ChatCall) (asked : Tables) (yielded : List StreamEvent) (last : StreamState)
      → last? (finish_stream w getattr uuid d c asked yielded (ok last)).yielded
        ≡ some (done_event (content_of w last))
  unfolding finish_stream
  last?-finish_stream d c asked yielded last =
      let done = done_event (content_of w last) ∷ [] in
      last?-cons (start_event c) (yielded ++ late_chart w last ++ done)
        (last?-append (yielded ++ late_chart w last) done refl)

  pub stream_chat-finish_stream :
      (stream_graph : StreamGraph) (d : Draws) (c : ChatCall) (db : Tables)
      (items : List GraphStreamEvent) (failure : Option Exception) (last : StreamState)
      → stream_graph (append_user_message d.user c db) (with_options c)
        ≡ record { items = items; failure = failure }
      → (stream_loop w failure initial items).ended ≡ ok last
      → stream_chat w getattr uuid stream_graph d c db
        ≡ finish_stream w getattr uuid d c
            (append_user_message d.user c db)
            (stream_loop w failure initial items).yielded
            (ok last)
  unfolding stream_chat
  stream_chat-finish_stream stream_graph d c db items failure last k ended = rw (k, ended)

  chat-finish_chat :
      (run_graph : RunGraph) (d : Draws) (c : ChatCall) (db : Tables) (s : AgentState)
      → run_graph (append_user_message d.user c db) (with_options c) ≡ ok s
      → chat w getattr uuid run_graph d c db
        ≡ finish_chat w getattr uuid d c (append_user_message d.user c db) (ok s)
  unfolding chat
  chat-finish_chat run_graph d c db s h = rw h

  -- Where a run of the graph ends with a state whose last message has a text, and the same run is
  -- streamed as messages and updates and then that state, the two ways to chat leave the same
  -- tables and give the same content, the stream with its last event and without an exception.
  pub chat-stream_chat :
      (run_graph : RunGraph) (stream_graph : StreamGraph) (d : Draws) (c : ChatCall) (db : Tables)
      (s : AgentState) (es : List GraphStreamEvent)
      → run_graph (append_user_message d.user c db) (with_options c) ≡ ok s
      → stream_graph (append_user_message d.user c db) (with_options c)
        ≡ record { items = es ++ final_event s ∷ []; failure = none }
      → All (IsRunEvent w) es
      → extract_final_content w s ≢ ""
      → ((stream_chat w getattr uuid stream_graph d c db).tables
          ≡ (chat w getattr uuid run_graph d c db).tables)
        × ((chat w getattr uuid run_graph d c db).result ≡ ok (extract_final_content w s))
        × (last? (stream_chat w getattr uuid stream_graph d c db).yielded
            ≡ some (done_event (extract_final_content w s)))
        × ((stream_chat w getattr uuid stream_graph d c db).failure ≡ none)
  unfolding finish_chat finish_stream
  chat-stream_chat run_graph stream_graph d c db s es h k run ne =
      let (last, ended, same) = stream_loop-final_state w initial es s run in
      let content = content_of-extract_final_content w last s same ne in
      let items = es ++ final_event s ∷ [] in
      let streamed = stream_chat-finish_stream stream_graph d c db items none last k ended in
      let chatted = chat-finish_chat run_graph d c db s h in
      let asked = append_user_message d.user c db in
      let persisted : persist_assistant_result w getattr uuid d c (content_of w last)
            last.final_state asked
          ≡ persist_assistant_result w getattr uuid d c (extract_final_content w s) s asked =
        cc in
      (
        ap (λ r. r.tables) streamed ∙ (persisted ∙ sym (ap (λ r. r.tables) chatted)),
        ap (λ r. r.result) chatted,
        ap (λ r. last? r.yielded) streamed
            ∙ (last?-finish_stream d c asked (stream_loop w none initial items).yielded last
                ∙ ap (λ t. some (done_event t)) content),
        ap (λ r. r.failure) streamed,
      )
