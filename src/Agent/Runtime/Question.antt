-- ===== src/Agent/Runtime/Question.antt =====
-- The question of a chat is the last message of the run that it starts.
use nextbos_ai.Prelude.{
  ℕ, String, Bool, true, false, Option, some, List, [], ◌∷◌, ◌≡◌, refl, ◌⊎◌, inl, inr, ap, sym, ◌∙◌,
  arith, eq_iff, ◌≤◌, ◌<◌, Option-cases, take, keep, filter_map, last?, last?-cons, last?-append,
  reverse, IsIn, IsIn-keep, ok, >>=-eq-ok, some_injective, ok_injective,
}
use mathlib.Core.Path.{subst}
use mathlib.Core.List.{reverse_aux}
use nextbos_ai.Value.{str}
use nextbos_ai.Agent.State.{Message, message, human}
use nextbos_ai.Agent.World.{World}
use nextbos_ai.Conversation.Tables.{ConversationMessage, ConversationSummary, Tables}
use nextbos_ai.Conversation.Repository.{
  Order, IsDescending, message_keys, message_of_thread, list_recent_messages, get_latest_summary,
  append_message,
}
use nextbos_ai.Conversation.ContextLoader.{
  load_messages, summary_to_message, conversation_message_to_langchain_message, listed,
}
use nextbos_ai.Conversation.ContextLoader.Restored.{filter_map-none, filter_map-some}
use nextbos_ai.Services.Calls.{ChatCall, Draws}
use nextbos_ai.Services.AgentService.{append_user_message}
use nextbos_ai.Services.AgentService.Kept.{question_row}
use nextbos_ai.Agent.Runtime.{
  Runtime, PreparedGraphRun, is_present, initial_messages, stored_or_asked,
  derive_sql_execution_client, create_wren_context_client, prepare_graph_run,
}

-- A row of the list is not newer than the first one.
newest_first :
    (x y : ConversationMessage) (xs : List ConversationMessage)
    → IsDescending message_keys (x ∷ xs)
    → IsIn y (x ∷ xs)
    → y.created_at ≤ x.created_at
newest_first x y [] d (inl e) = omega (arith, ap (λ m. m.created_at) e)
newest_first x y [] d (inr m) = absurd m
newest_first x y (z ∷ zs) (h, d) (inl e) = omega (arith, ap (λ m. m.created_at) e)
newest_first x y (z ∷ zs) (h, d) (inr m) = ground (arith, newest_first z y zs d m, h)

last?-filter_map :
    {A B : Type 0} (f : A → Option B) (xs : List A) (x : A) (b : B)
    → last? xs ≡ some x
    → f x ≡ some b
    → last? (filter_map f xs) ≡ some b
last?-filter_map f [] x b h k = cc
last?-filter_map f (y ∷ []) x b h k =
    ap last? (filter_map-some f y [] b (ap f (some_injective refl h) ∙ k))
last?-filter_map f (y ∷ z ∷ zs) x b h k =
    let rest = last?-filter_map f (z ∷ zs) x b h k in
    elim (Option-cases (f y)) [
      | inl e ↦ ap last? (filter_map-none f y (z ∷ zs) e) ∙ rest
      | inr (a, e) ↦
          ap last? (filter_map-some f y (z ∷ zs) a e) ∙ last?-cons a (filter_map f (z ∷ zs)) rest
    ]

last?-reverse_aux :
    {A : Type 0} (xs ys : List A) (x : A) → last? ys ≡ some x → last? (reverse_aux xs ys) ≡ some x
last?-reverse_aux [] ys x h = h
last?-reverse_aux (y ∷ xs) ys x h = last?-reverse_aux xs (y ∷ ys) x (last?-cons y ys h)

-- The latest message of a thread is the first of its rows in descending order.
first_is_newest :
    (q : ConversationMessage) (rows : List ConversationMessage)
    → IsDescending message_keys rows
    → IsIn q rows
    → ((m : ConversationMessage) → IsIn m rows → (m ≡ q) ⊎ (m.created_at < q.created_at))
    → (rest : List ConversationMessage) × (rows ≡ q ∷ rest)
first_is_newest q [] d i h = absurd i
first_is_newest q (x ∷ xs) d i h = elim (h x (inl refl)) [
  | inl e ↦ (xs, ap (λ m. m ∷ xs) e)
  | inr older ↦ absurd (omega (arith, older, newest_first x q xs d i))
]

-- The message for the row of the question.
abbrev pub question_message : Draws → ChatCall → Message
question_message d c = record (message human c.message) { id = some d.user.id }

-- No stored message of the thread is as late as the time of the question.
abbrev pub IsLatest : ℕ → String → Tables → Type 0
IsLatest now thread_id db =
    (m : ConversationMessage) → IsIn m db.messages → m.thread_id ≡ thread_id → m.created_at < now

module _ (w : World) (messages : Order ConversationMessage)
    (summaries : Order ConversationSummary) where
  keep_question :
      (d : Draws) (c : ChatCall) (db : Tables)
      → keep (message_of_thread c.thread_id) (question_row d c ∷ db.messages)
        ≡ question_row d c ∷ keep (message_of_thread c.thread_id) db.messages
  keep_question d c db = ground (arith, eq_iff c.thread_id c.thread_id)

  question_first :
      (d : Draws) (c : ChatCall) (db : Tables)
      → IsLatest d.user.now c.thread_id db
      → (rest : List ConversationMessage) × (messages.order_by_desc message_keys
            (keep (message_of_thread c.thread_id) (question_row d c ∷ db.messages))
          ≡ question_row d c ∷ rest)
  question_first d c db late =
      let p = message_of_thread c.thread_id in
      let q = question_row d c in
      let kept = keep_question d c db in
      let rows = messages.order_by_desc message_keys (keep p (q ∷ db.messages)) in
      first_is_newest q rows (messages.descending message_keys _)
        (messages.no_lost_rows message_keys _ q (subst (IsIn q) (sym kept) (inl refl)))
        (λ m i. elim (subst (IsIn m) kept (messages.no_new_rows message_keys _ m i)) [
          | inl e ↦ inl e
          | inr old ↦
              let (stored, same) = IsIn-keep p db.messages m old in
              inr (late m stored (ground (arith, eq_iff m.thread_id c.thread_id)))
        ])

  load_messages-question :
      (d : Draws) (c : ChatCall) (db : Tables)
      → IsLatest d.user.now c.thread_id db
      → last? (load_messages w messages summaries 20 c.thread_id (append_user_message d.user c db))
        ≡ some (question_message d c)
  unfolding load_messages list_recent_messages append_user_message append_message
      conversation_message_to_langchain_message
  load_messages-question d c db late =
      let (rest, e) = question_first d c db late in
      let f = conversation_message_to_langchain_message w in
      let asked = append_user_message d.user c db in
      let first = listed (summary_to_message (get_latest_summary summaries c.thread_id asked)) in
      let latest =
        ap (λ rows. last? (reverse (take 20 rows))) e
        ∙ last?-reverse_aux (take 19 rest) (question_row d c ∷ []) (question_row d c) refl in
      last?-append first (filter_map f (list_recent_messages messages c.thread_id 20 asked)) (
        last?-filter_map f (list_recent_messages messages c.thread_id 20 asked) (question_row d c)
          (question_message d c) latest refl)

last?-stored_or_asked :
    (stored : List Message) (question : String) (m : Message)
    → last? stored ≡ some m
    → last? (stored_or_asked stored question) ≡ some m
last?-stored_or_asked [] question m h = cc
last?-stored_or_asked (x ∷ xs) question m h = h

-- What the last message of a run shows: it is the user's, and has the question as its content.
abbrev pub IsQuestion : ChatCall → Option Message → Type 0
IsQuestion c o = (m : Message) × (o ≡ some m) × (m.kind ≡ human) × (m.content ≡ str c.message)

initial_messages-IsQuestion :
    (b : Bool) (stored : List Message) (d : Draws) (c : ChatCall)
    → last? stored ≡ some (question_message d c)
    → IsQuestion c (last? (initial_messages b stored c.message))
unfolding initial_messages
initial_messages-IsQuestion true stored d c h = (message human c.message, refl, refl, refl)
initial_messages-IsQuestion false stored d c h = (
  question_message d c,
  last?-stored_or_asked stored c.message (question_message d c) h,
  refl,
  refl,
)

-- Where a chat has stored its question at a time after that of every stored message of the thread,
-- the last message of a run that is prepared is the user's and has the question as its content,
-- with a checkpoint of the thread and without one.
pub prepare_graph_run-IsQuestion :
    (r : Runtime) (d : Draws) (c : ChatCall) (db : Tables) (p : PreparedGraphRun)
    → IsLatest d.user.now c.thread_id db
    → prepare_graph_run r (append_user_message d.user c db) c ≡ ok p
    → IsQuestion c (last? p.messages)
unfolding prepare_graph_run
prepare_graph_run-IsQuestion r d c db p late h =
    let (config, a, h1) = >>=-eq-ok (r.model_runtime.resolve_config c.model_options) _ h in
    let (model, b, h2) = >>=-eq-ok (r.model_runtime.create_chat_model config) _ h1 in
    let (clients, k, h3) =
      >>=-eq-ok
        (derive_sql_execution_client r.components.world r.load
          (create_wren_context_client r.settings))
        _ h2 in
    let stored =
      load_messages r.components.world r.messages_order r.summaries_order 20 c.thread_id
        (append_user_message d.user c db) in
    subst (λ q. IsQuestion c (last? q.messages)) (ok_injective h3)
      (initial_messages-IsQuestion (is_present (r.checkpoint c.thread_id)) stored d c
        (load_messages-question r.components.world r.messages_order r.summaries_order d c db late))
