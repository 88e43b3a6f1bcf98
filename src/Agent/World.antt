-- ===== src/Agent/World.antt =====
-- What the nodes take from outside the repository's Python code: the texts of the prompt files,
-- `json.dumps`, the `repr` of containers, the conversions of `Decimal` and `date`, and the chat
-- models.
use Prim.Native.String as Text
use nextbos_ai.Prelude.{
  String, Bool, true, false, Option, List, [], ◌∷◌, map, Outcome, ok, raise, type_error,
  other_error, decimal,
}
use nextbos_ai.Value.{Value, null, bool, int, str, arr, obj, object, Object, Fields, items, keys}
use nextbos_ai.Llm.Models.{EffectiveModelConfig}
use nextbos_ai.Agent.State.{Message, ChatModelOptions}

pub record World : Type 0 where
  pub json_dumps : Value → String
  pub json_dumps_indented : Value → String
  pub repr : Value → String
  pub to_float : Object → Value
  pub isoformat : Object → String
  pub system_prompt : String
  pub intent_prompt : String
  pub sql_plan_prompt : String
  pub chart_plan_prompt : String

-- `str(v)`.
abbrev pub text_of : World → Value → String
text_of w null = "None"
text_of w (bool true) = "True"
text_of w (bool false) = "False"
text_of w (int n) = decimal n
text_of w (str s) = s
text_of w (object o) = o.text
text_of w v = w.repr v

-- A chat model: its structured output for a schema's name, and its answer with or without tools.
pub record ChatModel : Type 0 where
  pub structured : String → List Message → Outcome Value
  pub invoke : Bool → List Message → Outcome Message

pub record ModelRuntime : Type 0 where
  pub resolve_config : Option ChatModelOptions → Outcome EffectiveModelConfig
  pub create_chat_model : EffectiveModelConfig → Outcome ChatModel

-- `v.get(…)` and `v[…]` of a value that is no dictionary.
abbrev pub dict_of : Value → Outcome Fields
dict_of (obj fs) = ok fs
dict_of _ = raise (record { class = other_error; text = "not a dictionary" })

-- The characters of a text, each as a text.
abbrev pub characters : String → List Value
characters Text.[] = []
characters (Text.◌∷◌ c s) = str (Text.◌∷◌ c Text.[]) ∷ characters s

-- `for x in v`: the elements of a list, the keys of a dictionary, the characters of a text.
abbrev pub iterate : Value → Outcome (List Value)
iterate (arr vs) = ok (items vs)
iterate (obj fs) = ok (map str (keys fs))
iterate (str s) = ok (characters s)
iterate _ = raise (record { class = type_error; text = "not iterable" })
