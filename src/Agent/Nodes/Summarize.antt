-- ===== src/Agent/Nodes/Summarize.antt =====
-- agent/nodes/summarize.py
use nextbos_ai.Prelude.{ℕ, Option, none, some, List, [], ◌∷◌, Outcome, ok}
use nextbos_ai.Agent.State.{AgentState, Write, summarized_messages}

pub record SummaryOptions : Type 0 where
  pub max_tokens : ℕ
  pub trigger_tokens : ℕ
  pub max_output_tokens : ℕ

abbrev pub default_summary_options : SummaryOptions
default_summary_options = record {
  max_tokens = 8000;
  trigger_tokens = 6000;
  max_output_tokens = 800;
}

abbrev pub options_or_default : Option SummaryOptions → SummaryOptions
options_or_default none = default_summary_options
options_or_default (some o) = o

unfoldable pub skip_summarization : AgentState → Outcome (List Write)
skip_summarization s = ok (summarized_messages s.messages ∷ [])

-- LangMem's node, as a function of its options, where there is a model for summaries.
abbrev pub SummarizationNode : Type 0
SummarizationNode = SummaryOptions → AgentState → Outcome (List Write)

unfoldable pub summarize :
    Option SummarizationNode → Option SummaryOptions → AgentState → Outcome (List Write)
unfolding skip_summarization
summarize none options s = skip_summarization s
summarize (some node) options s = node (options_or_default options) s
