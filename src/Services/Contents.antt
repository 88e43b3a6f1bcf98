-- ===== src/Services/Contents.antt =====
-- services/agent_service.py: the texts of message contents and of the final state.
use nextbos_ai.Prelude.{String, Option, none, some, map, concat, last?, if◌then◌else◌}
use nextbos_ai.Value.{Value, str, arr, obj, items, get, as_str, truthy}
use nextbos_ai.Agent.State.{AgentState, Message}
use nextbos_ai.Agent.World.{World, text_of}

abbrev text_or_empty : Option String → String
text_or_empty none = ""
text_or_empty (some s) = s

-- `_content_part_to_text`.
unfoldable pub content_part_to_text : Value → String
content_part_to_text (str s) = s
content_part_to_text (obj fs) = text_or_empty (as_str (get "text" fs))
content_part_to_text _ = ""

-- `_message_content_to_text`; `_extract_token` reads the content of a chunk in the same way.
unfoldable pub message_content_to_text : World → Value → String
unfolding content_part_to_text
message_content_to_text w (str s) = s
message_content_to_text w (arr vs) = concat (map content_part_to_text (items vs))
message_content_to_text w v = if truthy v then text_of w v else ""

content_of_last : World → Option Message → String
unfolding message_content_to_text
content_of_last w none = ""
content_of_last w (some m) = message_content_to_text w m.content

-- `_extract_final_content`.
unfoldable pub extract_final_content : World → AgentState → String
unfolding content_of_last
extract_final_content w s = content_of_last w (last? s.messages)
