-- ===== src/Conversation/Summary.antt =====
-- conversation/summary.py
use nextbos_ai.Prelude.{ℕ, String, Option, none, some, length, strip, ◌==◌, if◌then◌else◌}
use nextbos_ai.Value.{
  Value, null, arr, obj, object, Object, Fields, as_dict, as_str, get, is_null, items,
}

pub record ExtractedConversationSummary : Type 0 where
  pub summary : String
  pub covered_through_message_id : Option String
  pub message_count : ℕ

-- `_count_summarized_messages`; a set and a tuple are list values.
unfoldable pub count_summarized_messages : Value → ℕ
count_summarized_messages (arr vs) = length (items vs)
count_summarized_messages _ = 0

-- `getattr(o, name, None)` of an object of LangMem, and `UUID(text)`, `none` for a `ValueError`.
module _ (getattr : Object → String → Value) (uuid : String → Option String) where
  -- `_get_value`.
  unfoldable pub get_value : Value → String → Value
  get_value (obj fs) key = get key fs
  get_value (object o) key = getattr o key
  get_value _ key = null

  uuid_of : Option String → Option String
  uuid_of none = none
  uuid_of (some text) = if text == "" then none else uuid text

  -- `_parse_uuid`.
  unfoldable pub parse_uuid : Value → Option String
  unfolding uuid_of
  parse_uuid v = uuid_of (as_str v)

  summary_at : Value → Option String → Option ExtractedConversationSummary
  unfolding get_value parse_uuid count_summarized_messages
  summary_at running none = none
  summary_at running (some text) =
      if strip text == ""
      then none
      else some (record {
        summary = strip text;
        covered_through_message_id = parse_uuid (get_value running "last_summarized_message_id");
        message_count = count_summarized_messages (get_value running "summarized_message_ids");
      })

  summary_of_running : Value → Option ExtractedConversationSummary
  unfolding summary_at get_value
  summary_of_running running =
      if is_null running then none else summary_at running (as_str (get_value running "summary"))

  summary_in : Option Fields → Option ExtractedConversationSummary
  unfolding summary_of_running
  summary_in none = none
  summary_in (some context) = summary_of_running (get "running_summary" context)

  -- `extract_running_summary`, of the `context` of a result.
  unfoldable pub extract_running_summary : Value → Option ExtractedConversationSummary
  unfolding summary_in
  extract_running_summary context = summary_in (as_dict context)
