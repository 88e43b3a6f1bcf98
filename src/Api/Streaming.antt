-- ===== src/Api/Streaming.antt =====
-- api/streaming.py: the text of a server-sent event.
pub mod Framing
use nextbos_ai.Prelude.{String, Outcome, ok, ◌>>=◌, ◌<>◌}
use nextbos_ai.Value.{Fields}

-- `json.dumps(data, …)`, which raises for a value that is not JSON.
abbrev pub JsonDumps : Type 0
JsonDumps = Fields → Outcome String

abbrev pub frame : String → String → String
frame event payload = "event: " <> event <> "\ndata: " <> payload <> "\n\n"

-- `encode_sse_event`.
unfoldable pub encode_sse_event : JsonDumps → String → Fields → Outcome String
encode_sse_event json_dumps event body = do payload ← json_dumps body; ok (frame event payload)
