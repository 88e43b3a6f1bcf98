-- ===== src/Conversation/Repository/Ownership.antt =====
-- Whom a thread belongs to after a message.
use nextbos_ai.Prelude.{
  ℕ, String, true, false, Option, none, some, List, [], ◌∷◌, ◌≡◌, ◌≢◌, refl, ◌∙◌, arith, eq_iff,
  ◌==◌, any, Bool-cases, inl, inr,
}
use nextbos_ai.Conversation.Tables.{ConversationThread, Tables}
use nextbos_ai.Conversation.Repository.{
  of_thread, update_threads, upsert_thread, touch_thread, count_message, thread_row, get_thread,
  NewMessage, append_message, new_thread,
}

-- The row that an upsert leaves, for the row that it finds.
abbrev pub upserted : NewMessage → ℕ → ℕ → Option ConversationThread → ConversationThread
upserted m now later none = new_thread m.thread_id m.user_id (some now) later
upserted m now later (some t) = touch_thread m.user_id (some now) later t

touch_other :
    (k j u : String) (l : Option ℕ) (n : ℕ) (ts : List ConversationThread)
    → j ≢ k
    → thread_row k (update_threads (touch_thread u l n) j ts) ≡ thread_row k ts
touch_other k j u l n [] h = refl
touch_other k j u l n (t ∷ ts) h =
    ground (arith, touch_other k j u l n ts h, eq_iff t.thread_id j, eq_iff t.thread_id k)

count_other :
    (k j : String) (n : ℕ) (ts : List ConversationThread)
    → j ≢ k
    → thread_row k (update_threads (count_message n) j ts) ≡ thread_row k ts
count_other k j n [] h = refl
count_other k j n (t ∷ ts) h =
    ground (arith, count_other k j n ts h, eq_iff t.thread_id j, eq_iff t.thread_id k)

count_found :
    (j : String) (n : ℕ) (ts : List ConversationThread) (t : ConversationThread)
    → thread_row j ts ≡ some t
    → thread_row j (update_threads (count_message n) j ts) ≡ some (count_message n t)
count_found j n [] t h = cc
count_found j n (s ∷ ts) t h = elim (Bool-cases (s.thread_id == j)) [
  | inl e ↦ ground arith
  | inr e ↦ ground (arith, count_found j n ts t (ground arith))
]

touch_found :
    (j u : String) (l : Option ℕ) (n : ℕ) (ts : List ConversationThread) (t : ConversationThread)
    → thread_row j ts ≡ some t
    → thread_row j (update_threads (touch_thread u l n) j ts) ≡ some (touch_thread u l n t)
touch_found j u l n [] t h = cc
touch_found j u l n (s ∷ ts) t h = elim (Bool-cases (s.thread_id == j)) [
  | inl e ↦ ground arith
  | inr e ↦ ground (arith, touch_found j u l n ts t (ground arith))
]

row_any :
    (j : String) (ts : List ConversationThread) (t : ConversationThread)
    → thread_row j ts ≡ some t
    → any (of_thread j) ts ≡ true
row_any j [] t h = cc
row_any j (s ∷ ts) t h = elim (Bool-cases (s.thread_id == j)) [
  | inl e ↦ ground arith
  | inr e ↦ ground (arith, row_any j ts t (ground arith))
]

no_row_any :
    (j : String) (ts : List ConversationThread)
    → thread_row j ts ≡ none
    → any (of_thread j) ts ≡ false
no_row_any j [] h = refl
no_row_any j (s ∷ ts) h = elim (Bool-cases (s.thread_id == j)) [
  | inl e ↦ ground arith
  | inr e ↦ ground (arith, no_row_any j ts (ground arith))
]

upsert_row :
    (m : NewMessage) (now later : ℕ) (ts : List ConversationThread) (o : Option ConversationThread)
    → thread_row m.thread_id ts ≡ o
    → thread_row m.thread_id (upsert_thread m.thread_id m.user_id (some now) later ts)
      ≡ some (upserted m now later o)
unfolding upsert_thread
upsert_row m now later ts none h =
    ground (arith, no_row_any m.thread_id ts h, eq_iff m.thread_id m.thread_id)
upsert_row m now later ts (some t) h =
    ground
      (arith, row_any m.thread_id ts t h, touch_found m.thread_id m.user_id (some now) later ts t h)

upsert_other :
    (k : String) (m : NewMessage) (now later : ℕ) (ts : List ConversationThread)
    → m.thread_id ≢ k
    → thread_row k (upsert_thread m.thread_id m.user_id (some now) later ts) ≡ thread_row k ts
unfolding upsert_thread
upsert_other k m now later ts h =
    ground (arith, touch_other k m.thread_id m.user_id (some now) later ts h, eq_iff m.thread_id k)

upserted-user_id :
    (m : NewMessage) (now later : ℕ) (o : Option ConversationThread)
    → (upserted m now later o).user_id ≡ m.user_id
upserted-user_id m now later none = refl
upserted-user_id m now later (some t) = refl

-- After a message is appended, `get_thread` finds the thread of the message with one message more and
-- the time of the message as its last, newly made where it was missing; its user is the user of
-- the message, whoever had the thread before. Every other thread is found as before.
pub append_message-get_thread :
    (m : NewMessage) (id : String) (now later : ℕ) (db : Tables)
    → (get_thread m.thread_id (append_message m id now later db)
        ≡ some (count_message now (upserted m now later (get_thread m.thread_id db))))
      × ((upserted m now later (get_thread m.thread_id db)).user_id ≡ m.user_id)
      × ((k : String)
          → m.thread_id ≢ k
          → get_thread k (append_message m id now later db) ≡ get_thread k db)
unfolding append_message get_thread
append_message-get_thread m id now later db = (
  count_found m.thread_id now _ _ (upsert_row m now later db.threads _ refl),
  upserted-user_id m now later _,
  λ k h. count_other k m.thread_id now _ h ∙ upsert_other k m now later db.threads h,
)
