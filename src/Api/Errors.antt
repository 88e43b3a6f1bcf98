-- ===== src/Api/Errors.antt =====
-- api/errors.py: what a client is told of an exception.
pub mod Public
use Prim.Native.Nat.{ℕ, ◌+◌}
use Prim.Native.Char.{Char, code}
use Prim.Native.String as Text
use nextbos_ai.Prelude.{
  String, Bool, true, false, ◌&&◌, ◌||◌, leb, nat_eq, if◌then◌else◌, Exception, ExceptionClass,
  validation_error, wren_context_error, llm_configuration_error, llm_error, tool_timeout_error,
  tool_error, timeout_error, infrastructure_unavailable, type_error, other_error, ◌≡◌, refl,
}

-- `HTTPException` with the detail of `_http_error`.
pub record HttpError : Type 0 where
  pub status_code : ℕ
  pub code : String
  pub message : String

abbrev lower_code : ℕ → ℕ
lower_code c = if leb 65 c && leb c 90 then c + 32 else c

-- Whether a text starts with a word in small letters, once its letters are made small. A letter
-- outside of ASCII has no small form in the words that are looked for.
starts_with : String → String → Bool
starts_with Text.[] text = true
starts_with (Text.◌∷◌ c word) Text.[] = false
starts_with (Text.◌∷◌ c word) (Text.◌∷◌ d text) =
    nat_eq (code c) (lower_code (code d)) && starts_with word text

-- `word in text.lower()`.
unfoldable pub lower_contains : String → String → Bool
unfolding starts_with
lower_contains word Text.[] = starts_with word ""
lower_contains word (Text.◌∷◌ c text) =
    starts_with word (Text.◌∷◌ c text) || lower_contains word text

is_timeout_class : ExceptionClass → Bool
is_timeout_class timeout_error = true
is_timeout_class _ = false

-- `_is_timeout_error`.
unfoldable pub is_timeout_error : Exception → Bool
unfolding is_timeout_class lower_contains
is_timeout_error e =
    is_timeout_class e.class || lower_contains "timed out" e.text || lower_contains "timeout" e.text

abbrev pub http_error : ℕ → String → String → HttpError
http_error status_code code message = record {
  status_code = status_code;
  code = code;
  message = message;
}

abbrev pub configuration_problem : HttpError
configuration_problem = http_error 500 "llm_configuration_error" "模型配置不可用，请检查模型、请求地址或 API Key。"

abbrev pub tool_timeout : HttpError
tool_timeout = http_error 504 "tool_timeout" "工具执行超时，请稍后重试。"

abbrev pub llm_timeout : HttpError
llm_timeout = http_error 504 "llm_timeout" "模型请求超时，请稍后重试或缩短输入。"

abbrev pub tool_problem : HttpError
tool_problem = http_error 502 "tool_error" "工具执行失败，请稍后重试。"

abbrev pub llm_problem : HttpError
llm_problem = http_error 502 "llm_error" "模型服务调用失败，请稍后重试。"

abbrev pub infrastructure_problem : HttpError
infrastructure_problem = http_error 503 "infrastructure_unavailable" "Agent 依赖的基础设施暂时不可用，请稍后重试。"

abbrev pub internal_problem : HttpError
internal_problem = http_error 500 "internal_error" "服务内部错误，请稍后重试。"

-- The tests that stand after the one for a timeout.
unfoldable pub after_timeout : ExceptionClass → HttpError
after_timeout tool_error = tool_problem
after_timeout llm_error = llm_problem
after_timeout infrastructure_unavailable = infrastructure_problem
after_timeout _ = internal_problem

unfoldable pub unless_timeout : Bool → ExceptionClass → HttpError
unfolding after_timeout
unless_timeout true c = llm_timeout
unless_timeout false c = after_timeout c

unfoldable pub at_class : ExceptionClass → Bool → HttpError
unfolding unless_timeout
at_class llm_configuration_error b = configuration_problem
at_class tool_timeout_error b = tool_timeout
at_class c b = unless_timeout b c

-- `map_exception_to_http_error`.
unfoldable pub map_exception_to_http_error : Exception → HttpError
unfolding at_class is_timeout_error
map_exception_to_http_error e = at_class e.class (is_timeout_error e)

timeout_test :
    map_exception_to_http_error (record { class = other_error; text = "Request Timed Out." })
    ≡ llm_timeout
unfolding map_exception_to_http_error
timeout_test = refl
