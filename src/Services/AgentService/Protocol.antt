-- ===== src/Services/AgentService/Protocol.antt =====
-- The order of the events that a streamed chat yields, and where they come from.
use nextbos_ai.Prelude.{
  String, Bool, true, false, Option, none, some, List, [], ◌∷◌, ◌++◌, ◌≡◌, ◌≢◌, refl, ◌⊎◌, inl, inr,
  ap, arith, ◌==◌, All, All-of_IsIn, length, ◌≤◌, sym, eq_iff, IsIn, Outcome, ok, raise, Exception,
  ne_of_test, if◌then◌else◌,
}
use mathlib.Core.Path.{subst}
use mathlib.Core.List.{append-nil, append_assoc}
use nextbos_ai.Services.Named.{All-append, All-weaken, if_either, chart_event_from_spec_result-name}
use nextbos_ai.Services.Origins.{ComesFromOne, updates-ComesFrom}
use nextbos_ai.Services.StreamEvents.Tokens.{IsToken, extract_token-IsToken}
use nextbos_ai.Services.StepEvents.{extract_agent_step_events}
use nextbos_ai.Services.ChartEvents.{extract_chart_event}
use nextbos_ai.Value.{Value, Object}
use nextbos_ai.Agent.State.{AgentState}
use nextbos_ai.Agent.World.{World}
use nextbos_ai.Conversation.Tables.{Tables}
use nextbos_ai.Services.StreamEvents.{GraphStreamEvent, StreamEvent, extract_token, updates_of}
use nextbos_ai.Services.Calls.{StreamGraph, ChatCall, Draws, with_options}
use nextbos_ai.Services.AgentService.{
  ChatStream, StreamState, Streamed, initial, on_event, on_messages, on_updates, on_final_state,
  and_then, stream_loop, content_of, late_chart, if_any, start_event, done_event, token_event,
  append_user_message, finish_stream, stream_chat,
}

-- What an event of the graph gives: the token of a shown chunk, or an event of one of its updates.
abbrev pub Gives : World → GraphStreamEvent → StreamEvent → Type 0
Gives w g e =
    ((g.mode ≡ "messages")
      × (token : String) × IsToken w g.body token
      × (token ≢ "")
      × (e ≡ token_event token))
    ⊎ ((g.mode ≡ "updates") × ComesFromOne w (updates_of g.body) e)

abbrev pub IsGiven : World → List GraphStreamEvent → StreamEvent → Type 0
IsGiven w items e = (g : GraphStreamEvent) × IsIn g items × Gives w g e

-- Where a streamed chat ends, its last events: at most one chart, and `done`.
abbrev pub IsEnding : ChatStream → List StreamEvent → Type 0
IsEnding r last =
    ((e : Exception) × (r.failure ≡ some e) × (last ≡ []))
    ⊎ ((content : String) × (charts : List StreamEvent) × (r.failure ≡ none)
        × (length charts ≤ 1)
        × All (λ e. e.event ≡ "chart") charts
        × (last ≡ charts ++ done_event content ∷ []))

-- The events of a streamed chat in their order.
pub record IsTrace (w : World) (c : ChatCall) (items : List GraphStreamEvent) (r : ChatStream)
    : Type 0 where
  pub progress : List StreamEvent
  pub given : All (IsGiven w items) progress
  pub ending : List StreamEvent
  pub ends : IsEnding r ending
  pub order : r.yielded ≡ start_event c ∷ progress ++ ending

if_yields :
    (P : StreamEvent → Type 0) (b : Bool) (x y : Streamed)
    → (b ≡ true → All P x.yielded)
    → (b ≡ false → All P y.yielded)
    → All P (if b then x else y).yielded
if_yields P true x y p q = p refl
if_yields P false x y p q = q refl

module _ (w : World) where
  on_messages-Gives :
      (st : StreamState) (g : GraphStreamEvent)
      → g.mode ≡ "messages"
      → All (Gives w g) (on_messages w st g.body).yielded
  unfolding on_messages
  on_messages-Gives st g m =
      if_yields (Gives w g) (extract_token w g.body == "") _ _ (λ e. tt)
        (λ e.
          let ne = ne_of_test (extract_token w g.body) "" e in
          (inl (m, extract_token w g.body, extract_token-IsToken w g.body ne, ne, refl), tt))

  on_updates-Gives :
      (st : StreamState) (g : GraphStreamEvent) (o : Outcome (List StreamEvent))
      → g.mode ≡ "updates"
      → extract_agent_step_events w g.body ≡ o
      → All (Gives w g) (on_updates w st g.body o).yielded
  unfolding on_updates
  on_updates-Gives st g (raise e) m h = tt
  on_updates-Gives st g (ok steps) m h =
      All-of_IsIn _ (λ e i. inr (m, updates-ComesFrom w g.body steps e h i))

  on_final_state-none :
      (st : StreamState) (o : Outcome AgentState) → (on_final_state w st o).yielded ≡ []
  unfolding on_final_state
  on_final_state-none st (raise e) = refl
  on_final_state-none st (ok s) = refl

  on_event-Gives :
      (st : StreamState) (g : GraphStreamEvent) → All (Gives w g) (on_event w st g).yielded
  unfolding on_event
  on_event-Gives st g =
      if_yields (Gives w g) (g.mode == "messages") _ _
        (λ m. on_messages-Gives st g (ground (arith, eq_iff g.mode "messages")))
        (λ a.
          if_yields (Gives w g) (g.mode == "updates") _ _
            (λ m. on_updates-Gives st g _ (ground (arith, eq_iff g.mode "updates")) refl)
            (λ b.
              if_yields (Gives w g) (g.mode == "final_state") _ _
                (λ m. subst (All (Gives w g)) (sym (on_final_state-none st _)) tt) (λ c. tt)))

  IsGiven-later :
      (g : GraphStreamEvent) (gs : List GraphStreamEvent) (e : StreamEvent)
      → IsGiven w gs e
      → IsGiven w (g ∷ gs) e
  IsGiven-later g gs e (h, i, p) = (h, inr i, p)

  and_then-All :
      (P : StreamEvent → Type 0) (es : List StreamEvent) (o : Outcome StreamState)
      (rest : StreamState → Streamed)
      → All P es
      → ((st : StreamState) → All P (rest st).yielded)
      → All P (and_then w es o rest).yielded
  unfolding and_then
  and_then-All P es (raise e) rest p q = p
  and_then-All P es (ok st) rest p q = All-append P es (rest st).yielded p (q st)

  stream_loop-IsGiven :
      (failure : Option Exception) (st : StreamState) (gs : List GraphStreamEvent)
      → All (IsGiven w gs) (stream_loop w failure st gs).yielded
  unfolding stream_loop
  stream_loop-IsGiven none st [] = tt
  stream_loop-IsGiven (some e) st [] = tt
  stream_loop-IsGiven failure st (g ∷ gs) =
      and_then-All (IsGiven w (g ∷ gs)) (on_event w st g).yielded (on_event w st g).ended
        (λ next. stream_loop w failure next gs)
        (All-weaken (λ e p. (g, inl refl, p)) _ (on_event-Gives st g))
        (λ next. All-weaken (IsGiven-later g gs) _ (stream_loop-IsGiven failure next gs))

  if_any-names :
      (o : Option StreamEvent)
      → ((e : StreamEvent) → o ≡ some e → e.event ≡ "chart")
      → All (λ e. e.event ≡ "chart") (if_any o)
  if_any-names none h = tt
  if_any-names (some e) h = (h e refl, tt)

  late_chart-names : (st : StreamState) → All (λ e. e.event ≡ "chart") (late_chart w st)
  unfolding late_chart extract_chart_event
  late_chart-names st = if_either (All (λ e. e.event ≡ "chart")) st.chart_emitted _ _ tt (
      if_any-names (extract_chart_event w st.final_state)
        (chart_event_from_spec_result-name w st.final_state.chart_spec_result))

  length-late_chart : (st : StreamState) → length (late_chart w st) ≤ 1
  unfolding late_chart
  length-late_chart st = ground arith

  module _ (getattr : Object → String → Value) (uuid : String → Option String) where
    finish_stream-IsTrace :
        (d : Draws) (c : ChatCall) (asked : Tables) (items : List GraphStreamEvent)
        (progress : List StreamEvent) (o : Outcome StreamState)
        → All (IsGiven w items) progress
        → IsTrace w c items (finish_stream w getattr uuid d c asked progress o)
    unfolding finish_stream
    finish_stream-IsTrace d c asked items progress (raise e) given = record {
      progress = progress;
      given = given;
      ending = [];
      ends = inl (e, refl, refl);
      order = ap (λ es. start_event c ∷ es) (sym (append-nil progress));
    }
    finish_stream-IsTrace d c asked items progress (ok st) given = record {
      progress = progress;
      given = given;
      ending = late_chart w st ++ done_event (content_of w st) ∷ [];
      ends =
          inr (
            content_of w st,
            late_chart w st,
            refl,
            length-late_chart st,
            late_chart-names st,
            refl,
          );
      order =
          ap (λ es. start_event c ∷ es)
            (append_assoc progress (late_chart w st) (done_event (content_of w st) ∷ []));
    }

    -- A streamed chat yields `start` first. What follows comes from the events of the graph. A token
    -- is the text, not empty, of a chunk of mode `messages` without metadata or whose metadata name
    -- as node `respond`, `final_respond` or none. Any other event comes from an update: a step of
    -- that update, the chart of a succeeded result of `chart_spec`, `tool_start` for a named call in
    -- a message of the model from `respond`, or `tool_end` or `tool_error` by the status of a
    -- message of a tool from `tools`. Where the chat raises, nothing more is yielded. Where it
    -- ends, at most one chart and then one `done` follow.
    pub stream_chat-IsTrace :
        (stream_graph : StreamGraph) (d : Draws) (c : ChatCall) (db : Tables)
        → IsTrace w c
            (stream_graph (append_user_message d.user c db) (with_options c)).items
            (stream_chat w getattr uuid stream_graph d c db)
    unfolding stream_chat
    stream_chat-IsTrace stream_graph d c db =
        let stream = stream_graph (append_user_message d.user c db) (with_options c) in
        finish_stream-IsTrace d c (append_user_message d.user c db) stream.items _ _
          (stream_loop-IsGiven stream.failure initial stream.items)
