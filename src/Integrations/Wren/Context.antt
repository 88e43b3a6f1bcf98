-- ===== src/Integrations/Wren/Context.antt =====
-- integrations/business/wren.py: `query_context_sync`.
use nextbos_ai.Prelude.{
  ℕ, String, Option, none, some, List, ◌<>◌, nat_eq, catch, Outcome, ok, raise, ◌>>=◌,
  if◌then◌else◌,
}
use nextbos_ai.Value.{str, int, Fields, end, field, get, as_dict, is_false}
use nextbos_ai.Agent.World.{World, text_of}
use nextbos_ai.Integrations.WrenTypes.{WrenProjectConfig, WrenContextRequest, WrenContextResult}
use nextbos_ai.Integrations.Wren.{
  Tool, Toolkit, WrenLangChainContextClient, Step, get_tools, tool_by_name, wren_error, dict_answer,
}
use nextbos_ai.Integrations.Wren.Payload.{
  Schemas, tool_data_results, context_result_from_wren_payload,
}

dict_or : Option Fields → Fields → Fields
dict_or none fallback = fallback
dict_or (some d) fallback = d

-- The part of `_invoke_optional_tool` after the tool's answer.
optional_payload : World → String → Fields → Outcome Fields
unfolding dict_or
optional_payload w name result =
    if is_false (get "ok" result)
    then raise (wren_error ("Wren tool " <> name <> " 调用失败：" <> text_of w (get "error" result)))
    else ok (dict_or (as_dict (get "data" result)) result)

optional_at : World → Option Tool → String → Fields → Outcome Fields
unfolding optional_payload dict_answer
optional_at w none name arguments = ok end
optional_at w (some t) name arguments = do
  answer ← t.invoke arguments
  result ← dict_answer (as_dict answer) name
  optional_payload w name result

-- `_invoke_optional_tool`.
unfoldable pub invoke_optional_tool : World → List Tool → String → Fields → Outcome Fields
unfolding tool_by_name optional_at
invoke_optional_tool w ts name arguments = optional_at w (tool_by_name ts name) name arguments

-- The three payloads that the tools give.
pub record Payloads : Type 0 where
  pub list_models : Fields
  pub context : Fields
  pub recall : Fields

abbrev search_arguments : String → ℕ → Fields
search_arguments question limit = field "question" (str question) (field "limit" (int limit) end)

recall_payload : World → List Tool → String → ℕ → Outcome Fields
unfolding invoke_optional_tool
recall_payload w ts question limit =
    let asked = invoke_optional_tool w ts "wren_recall_queries" (search_arguments question limit) in
    if nat_eq limit 0 then ok end else asked

-- The body of the `try`.
unfoldable pub payloads :
    World → WrenProjectConfig → Outcome (List Tool) → WrenContextRequest → Outcome Payloads
unfolding invoke_optional_tool recall_payload
payloads w config tools request = do
  ts ← tools
  list_models ← invoke_optional_tool w ts "wren_list_models" end
  context ←
      invoke_optional_tool w ts "wren_fetch_context"
        (search_arguments request.question config.context_limit)
  recall ← recall_payload w ts request.question config.recall_limit
  ok (record { list_models = list_models; context = context; recall = recall })

-- `query_context_sync`, and `query_context`, which runs it in a thread. Any exception of the tools
-- becomes a `WrenContextError`; one of the conversion of their payloads does not.
unfoldable pub query_context_sync :
    World
    → Schemas
    → (WrenProjectConfig → Outcome Toolkit)
    → WrenLangChainContextClient
    → WrenContextRequest
    → Step WrenContextResult
unfolding get_tools payloads tool_data_results context_result_from_wren_payload
query_context_sync w schemas load client request =
    let tools = get_tools load client in
    record {
      client = tools.client;
      result = do
        p ←
            catch (payloads w client.config tools.result request)
              (λ e. raise (wren_error "WrenAI 官方 SDK 查询上下文失败"))
        context_result_from_wren_payload w schemas p.context p.list_models
            (tool_data_results p.recall);
    }
