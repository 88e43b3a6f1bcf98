-- ===== src/Services/Named.antt =====
-- The names of the events of charts, and predicates on all elements of a list.
use nextbos_ai.Prelude.{
  Bool, true, false, Option, none, some, List, [], ◌∷◌, ◌++◌, ◌≡◌, refl, inl, inr, sym, ap,
  some_injective, ◌==◌, Option-cases, All, filter_map, if◌then◌else◌,
}
use nextbos_ai.Value.{Value, Fields, as_dict, get, is_str}
use nextbos_ai.Agent.World.{World}
use nextbos_ai.Services.StreamEvents.{StreamEvent, NodeUpdate, Update, EventBody, updates_of}
use nextbos_ai.Services.ChartEvents.{
  chart_in, drawn_event, event_of_spec, chart_event_from_spec_result, chart_of_update,
  extract_chart_update_events,
}
use nextbos_ai.Conversation.ContextLoader.Restored.{filter_map-none, filter_map-some}
use mathlib.Core.Path.{subst}

module _ {A : Type 0} (P : A → Type 0) where
  pub All-append : (xs ys : List A) → All P xs → All P ys → All P (xs ++ ys)
  All-append [] ys a b = b
  All-append (x ∷ xs) ys (p, a) b = (p, All-append xs ys a b)

  All-filter_map :
      {B : Type 0} (f : B → Option A) (xs : List B)
      → ((x : B) (y : A) → f x ≡ some y → P y)
      → All P (filter_map f xs)
  All-filter_map f [] h = tt
  All-filter_map f (x ∷ xs) h = elim (Option-cases (f x)) [
    | inl e ↦ subst (All P) (sym (filter_map-none f x xs e)) (All-filter_map f xs h)
    | inr (y, e) ↦ subst (All P) (sym (filter_map-some f x xs y e)) (h x y e, All-filter_map f xs h)
  ]

pub All-weaken :
    {A : Type 0} {P Q : A → Type 0} → ((x : A) → P x → Q x) → (xs : List A) → All P xs → All Q xs
All-weaken f [] h = tt
All-weaken f (x ∷ xs) (p, h) = (f x p, All-weaken f xs h)

if_then :
    {A : Type 0} (b : Bool) (o : Option A) (e : A) → (if b then o else none) ≡ some e → o ≡ some e
if_then true o e h = h
if_then false o e h = cc

pub if_either :
    {A : Type 0} (P : A → Type 0) (b : Bool) (x y : A) → P x → P y → P (if b then x else y)
if_either P true x y p q = p
if_either P false x y p q = q

drawn_event-name :
    (w : World) (o : Option Fields) (e : StreamEvent) → drawn_event w o ≡ some e → e.event ≡ "chart"
unfolding drawn_event
drawn_event-name w none e h = cc
drawn_event-name w (some chart) e h = sym (ap (λ x. x.event) (some_injective refl h))

event_of_spec-name :
    (w : World) (o : Option Fields) (e : StreamEvent)
    → event_of_spec w o ≡ some e
    → e.event ≡ "chart"
unfolding event_of_spec
event_of_spec-name w none e h = cc
event_of_spec-name w (some result) e h =
    drawn_event-name w (as_dict (get "chart" result)) e
      (if_then (is_str "succeeded" (get "status" result)) _ e h)

pub chart_event_from_spec_result-name :
    (w : World) (v : Value) (e : StreamEvent)
    → chart_event_from_spec_result w v ≡ some e
    → e.event ≡ "chart"
unfolding chart_event_from_spec_result
chart_event_from_spec_result-name w v e h = event_of_spec-name w (as_dict v) e h

chart_in-name :
    (w : World) (o : Option Update) (e : StreamEvent) → chart_in w o ≡ some e → e.event ≡ "chart"
unfolding chart_in
chart_in-name w none e h = cc
chart_in-name w (some d) e h =
    chart_event_from_spec_result-name w (get "chart_spec_result" d.body) e h

chart_of_update-name :
    (w : World) (u : NodeUpdate) (e : StreamEvent)
    → chart_of_update w u ≡ some e
    → e.event ≡ "chart"
unfolding chart_of_update
chart_of_update-name w u e h = chart_in-name w u.update e (if_then (u.node == "chart_spec") _ e h)

pub chart_updates-name :
    (w : World) (body : EventBody)
    → All (λ e. e.event ≡ "chart") (extract_chart_update_events w body)
unfolding extract_chart_update_events
chart_updates-name w body =
    All-filter_map (λ e. e.event ≡ "chart") (chart_of_update w) (updates_of body)
      (chart_of_update-name w)
