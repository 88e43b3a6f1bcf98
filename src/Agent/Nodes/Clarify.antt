-- ===== src/Agent/Nodes/Clarify.antt =====
-- agent/nodes/clarify.py
use nextbos_ai.Prelude.{List, [], ◌∷◌, Outcome, ok}
use nextbos_ai.Value.{str, get, or_else}
use nextbos_ai.Agent.State.{AgentState, Write, messages, ai, message}
use nextbos_ai.Agent.Nodes.Inputs.{snapshot}

-- The content is the plan's question, the decision's, or a fixed text.
unfoldable pub clarify : AgentState → Outcome (List Write)
clarify s =
    let question = or_else (get "clarification_question" (snapshot s.sql_generation_plan)) (
      or_else (get "clarification_question" (snapshot s.intent_decision))
        (str "请补充一下你想查询的时间范围或业务条件。")) in
    ok (messages (record (message ai "") { content = question } ∷ []) ∷ [])
