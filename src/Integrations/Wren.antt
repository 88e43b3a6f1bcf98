-- ===== src/Integrations/Wren.antt =====
-- integrations/business/wren.py: `WrenLangChainContextClient`, its tools and its cache.
pub mod Payload
pub mod Validation
pub mod Context
use nextbos_ai.Prelude.{
  String, Bool, Option, none, some, List, [], ◌∷◌, ◌==◌, ◌<>◌, Outcome, ok, raise, Exception,
  wren_context_error, ◌>>=◌, if◌then◌else◌,
}
use nextbos_ai.Value.{Value, Fields, as_dict}
use nextbos_ai.Integrations.WrenTypes.{WrenProjectConfig}

-- A tool of LangChain: its `name` attribute, where it has one, and `invoke`.
pub record Tool : Type 0 where
  pub name : Option String
  pub invoke : Fields → Outcome Value

-- `WrenToolkit` of wren-langchain: `get_tools(include_memory_write, raise_on_error)`.
pub record Toolkit : Type 0 where
  pub get_tools : Bool → Bool → Outcome (List Tool)
  pub system_prompt : List Tool → Outcome String

-- The client's attributes; `_toolkit` and `_tools` are filled on their first use.
pub record WrenLangChainContextClient : Type 0 where
  pub config : WrenProjectConfig
  pub cached_toolkit : Option Toolkit
  pub cached_tools : Option (List Tool)

-- What a method gives: the client afterwards, and the result.
pub record Step {ℓ} (A : Type ℓ) : Type ℓ where
  pub client : WrenLangChainContextClient
  pub result : Outcome A

abbrev pub wren_error : String → Exception
wren_error text = record { class = wren_context_error; text = text }

keep_toolkit : WrenLangChainContextClient → Outcome Toolkit → Step Toolkit
keep_toolkit c (raise e) = record { client = c; result = raise e }
keep_toolkit c (ok t) = record { client = record c { cached_toolkit = some t }; result = ok t }

-- The property `toolkit`; `load` is the import of wren-langchain with `from_project`.
unfoldable pub toolkit :
    (WrenProjectConfig → Outcome Toolkit) → WrenLangChainContextClient → Step Toolkit
unfolding keep_toolkit
toolkit load c = elim c.cached_toolkit [
  | none ↦ keep_toolkit c (load c.config)
  | some t ↦ record { client = c; result = ok t }
]

keep_tools : WrenLangChainContextClient → Outcome (List Tool) → Step (List Tool)
keep_tools c (raise e) = record { client = c; result = raise e }
keep_tools c (ok ts) = record { client = record c { cached_tools = some ts }; result = ok ts }

read_tools : WrenLangChainContextClient → Outcome Toolkit → Step (List Tool)
unfolding keep_tools
read_tools c (raise e) = record { client = c; result = raise e }
read_tools c (ok t) =
    keep_tools c (t.get_tools c.config.include_memory_write c.config.raise_on_error)

-- `get_tools`.
unfoldable pub get_tools :
    (WrenProjectConfig → Outcome Toolkit) → WrenLangChainContextClient → Step (List Tool)
unfolding toolkit read_tools
get_tools load c = elim c.cached_tools [
  | none ↦ let t = toolkit load c in read_tools t.client t.result
  | some ts ↦ record { client = c; result = ok ts }
]

abbrev is_named : String → Option String → Bool
is_named wanted none = Bool.false
is_named wanted (some name) = name == wanted

-- `_tool_by_name`: the first tool of the name.
unfoldable pub tool_by_name : List Tool → String → Option Tool
tool_by_name [] wanted = none
tool_by_name (t ∷ ts) wanted =
    let rest = tool_by_name ts wanted in if is_named wanted t.name then some t else rest

required_at : Option Tool → String → Outcome Tool
required_at none wanted = raise (wren_error ("Wren tool " <> wanted <> " 不存在"))
required_at (some t) wanted = ok t

-- `_required_tool`.
unfoldable pub required_tool : List Tool → String → Outcome Tool
unfolding tool_by_name required_at
required_tool ts wanted = required_at (tool_by_name ts wanted) wanted

dict_answer : Option Fields → String → Outcome Fields
dict_answer none wanted = raise (wren_error ("Wren tool " <> wanted <> " 返回内容不是对象"))
dict_answer (some d) wanted = ok d

-- `_invoke_required_tool_envelope`.
unfoldable pub invoke_required_tool_envelope : List Tool → String → Fields → Outcome Fields
unfolding required_tool dict_answer
invoke_required_tool_envelope ts wanted arguments = do
  t ← required_tool ts wanted
  answer ← t.invoke arguments
  dict_answer (as_dict answer) wanted

prompt_of : Outcome Toolkit → List Tool → Outcome String
prompt_of (raise e) ts = raise e
prompt_of (ok t) ts = t.system_prompt ts

prompt_with_tools :
    (WrenProjectConfig → Outcome Toolkit)
    → WrenLangChainContextClient
    → Outcome (List Tool)
    → Step String
unfolding toolkit prompt_of
prompt_with_tools load c (raise e) = record { client = c; result = raise e }
prompt_with_tools load c (ok ts) =
    let t = toolkit load c in record { client = t.client; result = prompt_of t.result ts }

-- `system_prompt`.
unfoldable pub system_prompt :
    (WrenProjectConfig → Outcome Toolkit) → WrenLangChainContextClient → Step String
unfolding get_tools prompt_with_tools
system_prompt load c = let ts = get_tools load c in prompt_with_tools load ts.client ts.result

query_tool_of : Outcome (List Tool) → Outcome Tool
unfolding required_tool
query_tool_of (raise e) = raise e
query_tool_of (ok ts) = required_tool ts "wren_query"

-- `create_sql_execution_client`: the tool that the execution client is made of.
unfoldable pub create_sql_execution_client :
    (WrenProjectConfig → Outcome Toolkit) → WrenLangChainContextClient → Step Tool
unfolding get_tools query_tool_of
create_sql_execution_client load c =
    let ts = get_tools load c in record { client = ts.client; result = query_tool_of ts.result }
