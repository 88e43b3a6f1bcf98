-- ===== src/Agent/Nodes/WrenContext/Failures.antt =====
-- What the node makes of a failure of the Wren tools.
use nextbos_ai.Prelude.{
  String, some, ◌≡◌, refl, ap, Exception, Outcome, ok, raise, catch, ◌>>=◌, ◌<>◌,
}
use nextbos_ai.Value.{str, end, field}
use nextbos_ai.Agent.World.{World}
use nextbos_ai.Integrations.WrenTypes.{WrenProjectConfig, WrenContextRequest}
use nextbos_ai.Integrations.Wren.{Toolkit, WrenLangChainContextClient, get_tools, wren_error}
use nextbos_ai.Integrations.Wren.Payload.{
  Schemas, context_result_from_wren_payload, tool_data_results,
}
use nextbos_ai.Integrations.Wren.Context.{payloads, Payloads, query_context_sync}
use nextbos_ai.Agent.Nodes.WrenContext.{Report, empty_context, query_report}

abbrev pub sdk_failure : String
sdk_failure = "WrenAI 官方 SDK 查询上下文失败"

module _ (w : World) (schemas : Schemas) (load : WrenProjectConfig → Outcome Toolkit)
    (client : WrenLangChainContextClient) (request : WrenContextRequest) where
  query_fails :
      (m : Outcome Payloads) (e : Exception)
      → m ≡ raise e
      → (catch m (λ x. raise (wren_error sdk_failure)) >>= λ p.
          context_result_from_wren_payload w schemas p.context p.list_models
            (tool_data_results p.recall))
        ≡ raise (wren_error sdk_failure)
  query_fails m e h = rw h

  -- Whatever exception the toolkit or a tool raises while the context is queried, the node does not
  -- fail: it reports the empty context with the error of the client in it.
  pub query_report-query_context_sync :
      (e : Exception)
      → payloads w client.config (get_tools load client).result request ≡ raise e
      → (r : Report) × (query_report
            (some (λ q. (query_context_sync w schemas load client q).result))
            request
          ≡ ok r)
        × (r.context ≡ record empty_context { raw = field "error" (str sdk_failure) end })
  unfolding query_report query_context_sync
  query_report-query_context_sync e h = (
    record {
      context = record empty_context { raw = field "error" (str sdk_failure) end };
      text = "已识别为业务数据问题，但 WrenAI 上下文查询失败：" <> request.question;
    },
    ap (λ m. query_report (some (λ q. m)) request) (query_fails _ e h),
    refl,
  )
