-- ===== src/Agent/Nodes/Inputs.antt =====
-- What several nodes read of the state.
use nextbos_ai.Prelude.{String, Bool, Option, none, some, List, [], ◌∷◌, is_empty, if◌then◌else◌}
use nextbos_ai.Value.{Value, obj, Fields, end, or_else, dict_or_empty}
use nextbos_ai.Agent.State.{AgentState, Message, MessageKind, human}
use nextbos_ai.Agent.World.{World, text_of}

-- `state.get("summarized_messages") or state.get("messages", [])`.
abbrev pub model_input : AgentState → List Message
model_input s = if is_empty s.summarized_messages then s.messages else s.summarized_messages

-- `state.get(key) or {}` of a snapshot, which is a dictionary or missing.
abbrev pub snapshot : Value → Fields
snapshot v = dict_or_empty (or_else v (obj end))

abbrev is_human : MessageKind → Bool
is_human human = Bool.true
is_human _ = Bool.false

-- The last human message: the first one that `reversed(messages)` meets.
abbrev pub last_human : List Message → Option Message
last_human [] = none
last_human (m ∷ ms) =
    let later = last_human ms in
    elim later [ none ↦ (if is_human m.kind then some m else none) | some found ↦ some found ]

abbrev question_of : World → Option Message → String
question_of w none = ""
question_of w (some m) = text_of w m.content

-- `_latest_human_question`, and the loop that ends `_current_question`.
unfoldable pub latest_human_question : World → List Message → String
latest_human_question w ms = question_of w (last_human ms)
