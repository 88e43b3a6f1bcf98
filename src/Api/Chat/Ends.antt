-- ===== src/Api/Chat/Ends.antt =====
-- How the stream of the route ends.
use nextbos_ai.Prelude.{
  String, Option, none, some, List, [], ◌∷◌, ◌++◌, ◌≡◌, refl, ◌⊎◌, inl, inr, ap, sym, ◌∙◌, last?,
  last?-cons, last?-append, IsIn, Outcome, ok, raise, Exception, >>=-eq-ok, some_injective,
  ok_injective,
}
use mathlib.Core.Path.{subst}
use nextbos_ai.Value.{Value, Object}
use nextbos_ai.Agent.World.{World}
use nextbos_ai.Conversation.Tables.{Tables}
use nextbos_ai.Services.StreamEvents.{GraphStreamEvent, StreamEvent}
use nextbos_ai.Services.Calls.{StreamGraph, ChatCall, Draws}
use nextbos_ai.Services.AgentService.{ChatStream, start_event, done_event, stream_chat}
use nextbos_ai.Services.AgentService.Protocol.{IsTrace, IsEnding, stream_chat-IsTrace}
use nextbos_ai.Api.Errors.{HttpError, map_exception_to_http_error}
use nextbos_ai.Api.Errors.Public.{public_errors, map_exception_to_http_error-IsPublic}
use nextbos_ai.Api.Streaming.{JsonDumps, frame, encode_sse_event}
use nextbos_ai.Api.Chat.{
  ChatRequest, call_of, error_body, error_frames, frame_before, frames, event_stream,
  chat_stream_route,
}

none-some : {A : Type 0} {a : A} → none ≡ some a → ⊥
none-some h = cc

-- `json.dumps` of the texts of an error does not raise.
abbrev pub EncodesErrors : JsonDumps → Type 0
EncodesErrors json_dumps =
    (e : HttpError) → (payload : String) × (json_dumps (error_body e) ≡ ok payload)

module _ (json_dumps : JsonDumps) where
  -- The frame of an event `error` with one of the fixed errors.
  abbrev pub IsErrorFrame : String → Type 0
  IsErrorFrame f =
      (e : HttpError) × (payload : String) × IsIn e public_errors
      × (json_dumps (error_body e) ≡ ok payload)
      × (f ≡ frame "error" payload)

  abbrev pub IsFrameOf : StreamEvent → String → Type 0
  IsFrameOf x f =
      (payload : String) × (json_dumps x.body ≡ ok payload) × (f ≡ frame x.event payload)

  module _ (law : EncodesErrors json_dumps) where
    error_frames-last :
        (e : Exception)
        → (f : String) × (last? (error_frames json_dumps e) ≡ some f) × IsErrorFrame f
    unfolding error_frames encode_sse_event
    error_frames-last e =
        let (payload, p) = law (map_exception_to_http_error e) in
        let (listed, same) = map_exception_to_http_error-IsPublic e in
        (frame "error" payload, rw p, (map_exception_to_http_error e, payload, listed, p, refl))

    frame_before-last :
        (o : Outcome String) (rest : List String) (P : String → Type 0)
        → ((f : String) → IsErrorFrame f → P f)
        → ((f : String) → o ≡ ok f → (g : String) × (last? (f ∷ rest) ≡ some g) × P g)
        → (g : String) × (last? (frame_before json_dumps o rest) ≡ some g) × P g
    unfolding frame_before
    frame_before-last (raise e) rest P broken sent =
        let (f, l, p) = error_frames-last e in (f, l, broken f p)
    frame_before-last (ok f) rest P broken sent = sent f refl

    -- The last frame is one of an error, or the frame of the last event.
    abbrev IsLastFrame : Option Exception → StreamEvent → String → Type 0
    IsLastFrame failure x f = IsErrorFrame f ⊎ ((failure ≡ none) × IsFrameOf x f)

    IsFrameOf-encode :
        (y x : StreamEvent) (f : String)
        → some y ≡ some x
        → encode_sse_event json_dumps y.event y.body ≡ ok f
        → IsFrameOf x f
    unfolding encode_sse_event
    IsFrameOf-encode y x f same h =
        let (payload, p, q) = >>=-eq-ok (json_dumps y.body) _ h in
        subst (λ z. IsFrameOf z f) (some_injective refl same) (payload, p, sym (ok_injective q))

    frames-last :
        (xs : List StreamEvent) (failure : Option Exception) (x : StreamEvent)
        → (failure ≡ none → last? xs ≡ some x)
        → (f : String) × (last? (frames json_dumps xs failure) ≡ some f) × IsLastFrame failure x f
    unfolding frames
    frames-last [] none x h = absurd (none-some (h refl))
    frames-last [] (some e) x h = let (f, l, p) = error_frames-last e in (f, l, inl p)
    frames-last (y ∷ []) none x h =
        frame_before-last (encode_sse_event json_dumps y.event y.body) [] (IsLastFrame none x)
          (λ f p. inl p) (λ f e. (f, refl, inr (refl, IsFrameOf-encode y x f (h refl) e)))
    frames-last (y ∷ []) (some e) x h =
        frame_before-last (encode_sse_event json_dumps y.event y.body) (error_frames json_dumps e)
          (IsLastFrame (some e) x) (λ f p. inl p)
          (λ f q.
            let (g, l, p) = error_frames-last e in
            (g, last?-cons f (error_frames json_dumps e) l, inl p))
    frames-last (y ∷ z ∷ zs) failure x h =
        frame_before-last (encode_sse_event json_dumps y.event y.body)
          (frames json_dumps (z ∷ zs) failure) (IsLastFrame failure x) (λ f p. inl p)
          (λ f q.
            let (g, l, p) = frames-last (z ∷ zs) failure x h in
            (g, last?-cons f (frames json_dumps (z ∷ zs) failure) l, p))

  -- The event that a stream without an exception ends with.
  last_done :
      (c : ChatCall) (w : World) (items : List GraphStreamEvent) (s : ChatStream)
      → IsTrace w c items s
      → (content : String) × (s.failure ≡ none → last? s.yielded ≡ some (done_event content))
  last_done c w items s t = done_of t.ends
    where
      done_of :
          IsEnding s t.ending
          → (content : String) × (s.failure ≡ none → last? s.yielded ≡ some (done_event content))
      done_of (inl (e, h, q)) = ("", λ n. absurd (none-some (sym n ∙ h)))
      done_of (inr (content, charts, h, l, names, q)) = (
        content,
        λ n.
            ap last? (t.order ∙ ap (λ es. start_event c ∷ t.progress ++ es) q)
            ∙ last?-cons (start_event c) (t.progress ++ (charts ++ done_event content ∷ [])) (
                last?-append t.progress (charts ++ done_event content ∷ [])
                  (last?-append charts (done_event content ∷ []) refl)),
      )

-- Every stream that the route sends ends with a frame, and the last one is `done` with the content,
-- or `error` with one of the fixed errors, whatever the graph and `json.dumps` do; `json.dumps` of
-- the texts of an error is assumed not to raise.
pub chat_stream_route-ends :
    (w : World) (getattr : Object → String → Value) (uuid : String → Option String)
    (json_dumps : JsonDumps) (stream_graph : StreamGraph) (d : Draws) (r : ChatRequest)
    (trace_id : Option String) (db : Tables)
    → EncodesErrors json_dumps
    → (f : String) × (last?
          (chat_stream_route w getattr uuid json_dumps stream_graph d r trace_id db)
        ≡ some f)
      × (IsErrorFrame json_dumps f
          ⊎ ((content : String) × IsFrameOf json_dumps (done_event content) f))
unfolding chat_stream_route event_stream
chat_stream_route-ends w getattr uuid json_dumps stream_graph d r trace_id db law =
    let s = stream_chat w getattr uuid stream_graph d (call_of r trace_id) db in
    let (content, done) =
      last_done json_dumps (call_of r trace_id) w _ s
        (stream_chat-IsTrace w getattr uuid stream_graph d (call_of r trace_id) db) in
    let (f, l, p) = frames-last json_dumps law s.yielded s.failure (done_event content) done in
    (f, l, elim p [ inl e ↦ inl e | inr (n, q) ↦ inr (content, q) ])
