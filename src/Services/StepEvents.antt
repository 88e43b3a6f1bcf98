-- ===== src/Services/StepEvents.antt =====
-- services/agent_service.py: the steps of an update for the frontend.
use nextbos_ai.Prelude.{Option, none, some, List, [], ◌∷◌, ◌++◌, map, Outcome, ok, ◌>>=◌}
use nextbos_ai.Value.{Fields}
use nextbos_ai.Agent.World.{World}
use nextbos_ai.Services.Steps.{agent_step_from_update}
use nextbos_ai.Services.StreamEvents.{Update, NodeUpdate, EventBody, StreamEvent, updates_of}

unfoldable pub step_event : Fields → StreamEvent
step_event step = record { event = "agent_step"; body = step }

unfoldable pub step_of_update : World → NodeUpdate → Outcome (List Fields)
unfolding agent_step_from_update
step_of_update w u = step_at u.update
  where
    step_at : Option Update → Outcome (List Fields)
    step_at none = ok []
    step_at (some d) = agent_step_from_update w u.node d.body

unfoldable pub step_events_of : World → List NodeUpdate → Outcome (List StreamEvent)
unfolding step_of_update step_event
step_events_of w [] = ok []
step_events_of w (u ∷ us) =
    let rest = step_events_of w us in
    step_of_update w u >>= λ steps. (rest >>= λ later. ok (map step_event steps ++ later))

-- `_extract_agent_step_events`.
unfoldable pub extract_agent_step_events : World → EventBody → Outcome (List StreamEvent)
unfolding step_events_of updates_of
extract_agent_step_events w body = step_events_of w (updates_of body)
