-- ===== src/Agent/Nodes/WrenContext.antt =====
-- agent/nodes/wren_context.py
pub mod Failures
use nextbos_ai.Prelude.{
  String, Bool, true, Option, none, some, List, [], ◌∷◌, ◌<>◌, last?, traverse, Outcome, ok, raise,
  catch, Exception, ExceptionClass, wren_context_error, other_error, ◌>>=◌, if◌then◌else◌,
}
use nextbos_ai.Value.{
  Value, null, str, arr, obj, Fields, end, field, get, get_or, has_key, or_else, opt_str,
  list_value, nil,
}
use nextbos_ai.Schemas.Model.{Schema, validated}
use nextbos_ai.Integrations.WrenTypes.{
  WrenContextRequest, WrenContextResult, dump_request, dump_context,
}
use nextbos_ai.Agent.State.{AgentState, Message, Write, wren_context_request, messages, message, ai}
use nextbos_ai.Agent.World.{World, text_of, dict_of, iterate}
use nextbos_ai.Agent.Nodes.Inputs.{snapshot}

-- `WrenContextClient.query_context`.
abbrev pub ContextQuery : Type 0
ContextQuery = WrenContextRequest → Outcome WrenContextResult

abbrev pub empty_context : WrenContextResult
empty_context = record {
  models = [];
  fields = [];
  metrics = [];
  joins = [];
  business_rules = [];
  historical_sql = [];
  raw = end;
}

-- `d[key]`.
abbrev item : String → Fields → Outcome Value
item k fs = if has_key k fs then ok (get k fs) else raise (record { class = other_error; text = k })

-- `WrenContextFilter(field=filter_item["field"], value=filter_item["value"])`, as keyword arguments.
filter_arguments : Value → Outcome Value
filter_arguments v = do
  d ← dict_of v
  on ← item "field" d
  value ← item "value" d
  ok (obj (field "field" on (field "value" value end)))

abbrev content_of : World → Option Message → String
content_of w none = ""
content_of w (some m) = text_of w m.content

unfoldable pub latest_message_content : World → AgentState → String
latest_message_content w s = content_of w (last? s.messages)

-- The keyword arguments of `WrenContextRequest(...)`.
unfoldable pub request_arguments : World → AgentState → Outcome Value
unfolding filter_arguments latest_message_content
request_arguments w s = do
  let decision = snapshot s.intent_decision
  filter_items ← iterate (get_or "filters" (arr nil) decision)
  filters ← traverse filter_arguments filter_items
  ok (
      obj (
        field "question"
          (or_else (get "question_rewrite" decision) (str (latest_message_content w s)))
          (field "tenant_id" null (
            field "user_id" (opt_str s.user_id) (
              field "metrics" (get_or "metrics" (arr nil) decision) (
                field "dimensions" (get_or "dimensions" (arr nil) decision) (
                  field "filters" (list_value filters)
                    (field "time_range" (get "time_range" decision) end))))))))

abbrev pub always : WrenContextRequest → Bool
always r = true

-- What the node reports of a query: the context that it writes and the message.
pub record Report : Type 0 where
  pub context : WrenContextResult
  pub text : String

abbrev failed_context : Exception → WrenContextResult
failed_context e = record empty_context { raw = field "error" (str e.text) end }

-- `except WrenContextError as exc`: any other exception leaves the node.
on_error : String → ExceptionClass → Exception → Outcome Report
on_error question wren_context_error e =
    ok (record { context = failed_context e; text = "已识别为业务数据问题，但 WrenAI 上下文查询失败：" <> question })
on_error question _ e = raise e

unfoldable pub query_report : Option ContextQuery → WrenContextRequest → Outcome Report
unfolding on_error
query_report none r =
    ok (record { context = empty_context; text = "已识别为业务数据问题，已准备 WrenAI 上下文查询请求：" <> r.question })
query_report (some query_context) r =
    catch
      (do
        context ← query_context r
        ok (record { context = context; text = "已识别为业务数据问题，已完成 WrenAI 上下文查询：" <> r.question }))
      (λ e. on_error r.question e.class e)

module _ (w : World) (requests : Schema WrenContextRequest dump_request always) where
  unfoldable pub wren_context_request_from_state : AgentState → Outcome WrenContextRequest
  unfolding request_arguments
  wren_context_request_from_state s = do
    arguments ← request_arguments w s
    validated (requests.model_validate arguments)

  -- The node.
  unfoldable pub wren_context : Option ContextQuery → AgentState → Outcome (List Write)
  unfolding wren_context_request_from_state query_report
  wren_context client s = do
    request ← wren_context_request_from_state s
    report ← query_report client request
    ok (
        wren_context_request (dump_request request)
        ∷ Write.wren_context (dump_context report.context)
        ∷ messages (message ai report.text ∷ [])
        ∷ [])
