-- ===== src/Api/Chat.antt =====
-- api/routes/chat.py: the two chat routes. FastAPI hands over requests that pydantic accepts; the trace
-- id of OpenTelemetry is an argument.
pub mod Ends
use Prim.Native.Nat.{ℕ}
use Prim.Native.String.{count}
use nextbos_ai.Prelude.{
  String, Bool, true, Option, none, some, List, [], ◌∷◌, ◌&&◌, leb, Outcome, ok, raise, Exception,
}
use nextbos_ai.Value.{Value, Object, str, int, float, Fields, end, field}
use nextbos_ai.Agent.State.{ChatModelOptions}
use nextbos_ai.Agent.World.{World}
use nextbos_ai.Conversation.Tables.{Tables}
use nextbos_ai.Services.StreamEvents.{StreamEvent}
use nextbos_ai.Services.Calls.{RunGraph, StreamGraph, ChatCall, Draws}
use nextbos_ai.Services.AgentService.{ChatRun, ChatStream, chat, stream_chat}
use nextbos_ai.Api.Errors.{HttpError, map_exception_to_http_error}
use nextbos_ai.Api.Streaming.{JsonDumps, encode_sse_event}

-- Temperatures and `top_p` in millionths.
pub record ChatModelParams : Type 0 where
  pub temperature : Option ℕ
  pub max_tokens : Option ℕ
  pub top_p : Option ℕ
  pub timeout_seconds : Option ℕ

pub record ChatRequest : Type 0 where
  pub thread_id : String
  pub user_id : String
  pub message : String
  pub model_alias : Option String
  pub model_params : Option ChatModelParams

abbrev within : ℕ → ℕ → Option ℕ → Bool
within low high none = true
within low high (some n) = leb low n && leb n high

abbrev at_least : ℕ → Option ℕ → Bool
at_least low none = true
at_least low (some n) = leb low n

abbrev length_within : ℕ → ℕ → String → Bool
length_within low high s = leb low (count s) && leb (count s) high

abbrev alias_within : Option String → Bool
alias_within none = true
alias_within (some s) = length_within 1 128 s

-- The constraints of the fields.
abbrev params_ok : Option ChatModelParams → Bool
params_ok none = true
params_ok (some p) =
    within 0 2000000 p.temperature
    && at_least 1 p.max_tokens
    && within 0 1000000 p.top_p
    && at_least 1 p.timeout_seconds

unfoldable pub is_valid_request : ChatRequest → Bool
is_valid_request r =
    length_within 1 128 r.thread_id
    && length_within 1 128 r.user_id
    && length_within 1 20000 r.message
    && alias_within r.model_alias
    && params_ok r.model_params

field_if_some : String → (ℕ → Value) → Option ℕ → Fields → Fields
field_if_some k v none fs = fs
field_if_some k v (some n) fs = field k (v n) fs

-- `model_dump(exclude_none=True)`.
unfoldable pub dump_params : ChatModelParams → Fields
unfolding field_if_some
dump_params p = field_if_some "temperature" float p.temperature (
    field_if_some "max_tokens" int p.max_tokens (
      field_if_some "top_p" float p.top_p
        (field_if_some "timeout_seconds" int p.timeout_seconds end)))

dumped : Option ChatModelParams → Option Fields
unfolding dump_params
dumped none = none
dumped (some p) = some (dump_params p)

-- `_to_model_options`.
unfoldable pub to_model_options : ChatRequest → ChatModelOptions
unfolding dumped
to_model_options r = record { model_alias = r.model_alias; model_params = dumped r.model_params }

-- The call of the service for a request.
unfoldable pub call_of : ChatRequest → Option String → ChatCall
unfolding to_model_options
call_of r trace_id = record {
  thread_id = r.thread_id;
  user_id = r.user_id;
  message = r.message;
  model_options = some (to_model_options r);
  trace_id = trace_id;
}

pub record ChatResponseItem : Type 0 where
  pub type : String
  pub content : Option String
  pub metadata : Fields

pub record ChatResponseData : Type 0 where
  pub thread_id : String
  pub trace_id : Option String
  pub items : List ChatResponseItem

pub record ChatResponse : Type 0 where
  pub code : ℕ
  pub status : String
  pub message : String
  pub body : ChatResponseData

-- What a route answers: a response, or an `HTTPException` that it raises.
pub data Answer (A : Type 0) : Type 0 where
  responded : A → Answer A
  failed : HttpError → Answer A

abbrev pub chat_response : ChatRequest → Option String → String → ChatResponse
chat_response r trace_id content = record {
  code = 200;
  status = "success";
  message = "success";
  body = record {
    thread_id = r.thread_id;
    trace_id = trace_id;
    items = record { type = "text"; content = some content; metadata = end } ∷ [];
  };
}

answer_of : ChatRequest → Option String → Outcome String → Answer ChatResponse
answer_of r trace_id (raise e) = failed (map_exception_to_http_error e)
answer_of r trace_id (ok content) = responded (chat_response r trace_id content)

pub record RouteRun : Type 0 where
  pub tables : Tables
  pub answer : Answer ChatResponse

-- The data of the event `error`.
abbrev pub error_body : HttpError → Fields
error_body e = field "code" (str e.code) (field "message" (str e.message) end)

module _ (json_dumps : JsonDumps) where
  frames_or_none : Outcome String → List String
  frames_or_none (raise e) = []
  frames_or_none (ok frame) = frame ∷ []

  -- The handler of `event_stream`; where its own encoding raises, the stream breaks off.
  unfoldable pub error_frames : Exception → List String
  unfolding frames_or_none encode_sse_event
  error_frames e =
      frames_or_none
        (encode_sse_event json_dumps "error" (error_body (map_exception_to_http_error e)))

  unfoldable pub frame_before : Outcome String → List String → List String
  unfolding error_frames
  frame_before (raise e) rest = error_frames e
  frame_before (ok frame) rest = frame ∷ rest

  unfoldable pub frames : List StreamEvent → Option Exception → List String
  unfolding frame_before encode_sse_event
  frames [] none = []
  frames [] (some e) = error_frames e
  frames (x ∷ xs) failure =
      frame_before (encode_sse_event json_dumps x.event x.body) (frames xs failure)

  -- `event_stream`: what is sent for a stream that the service yields.
  unfoldable pub event_stream : ChatStream → List String
  unfolding frames
  event_stream s = frames s.yielded s.failure

module _ (w : World) (getattr : Object → String → Value) (uuid : String → Option String) where
  -- The route `chat`.
  unfoldable pub chat_route : RunGraph → Draws → ChatRequest → Option String → Tables → RouteRun
  unfolding answer_of
  chat_route run_graph d r trace_id db =
      let run = chat w getattr uuid run_graph d (call_of r trace_id) db in
      record { tables = run.tables; answer = answer_of r trace_id run.result }

  -- The route `chat_stream`: the frames that it sends to a client that reads them all.
  unfoldable pub chat_stream_route :
      JsonDumps → StreamGraph → Draws → ChatRequest → Option String → Tables → List String
  unfolding event_stream
  chat_stream_route json_dumps stream_graph d r trace_id db =
      event_stream json_dumps (stream_chat w getattr uuid stream_graph d (call_of r trace_id) db)
