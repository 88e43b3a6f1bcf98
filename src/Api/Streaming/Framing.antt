-- ===== src/Api/Streaming/Framing.antt =====
-- How a client reads the stream, and that it reads what was sent.
use Prim.Native.Char.{Char, code}
use Prim.Native.String as Text
use text.Mathlib.TextLemmas.{nil-append, cons-append, append_assoc}
use nextbos_ai.Prelude.{
  String, Bool, true, false, Option, none, some, List, [], ◌∷◌, ◌≡◌, refl, ap, ◌∙◌, arith, nat_eq,
  concat, map, All, ◌&&◌, ◌==◌, if◌then◌else◌, ◌<>◌, not, Bool-cases, inl, inr, sym, Outcome, ok,
  ok_injective, >>=-eq-ok, ◌>>=◌, traverse,
}
use nextbos_ai.Api.Streaming.{JsonDumps, frame, encode_sse_event}
use nextbos_ai.Value.{Fields}
use nextbos_ai.Services.StreamEvents.{StreamEvent}

-- The lines of a text, of which the last one is not ended.
abbrev before_line : Char → List String → List String
before_line c [] = []
before_line c (l ∷ ls) = Text.◌∷◌ c l ∷ ls

unfoldable pub lines : String → List String
lines Text.[] = "" ∷ []
lines (Text.◌∷◌ c s) =
    let rest = lines s in if nat_eq (code c) 10 then "" ∷ rest else before_line c rest

-- The text has no line feed.
unfoldable pub is_line : String → Bool
is_line Text.[] = true
is_line (Text.◌∷◌ c s) = not (nat_eq (code c) 10) && is_line s

line_feed-append : (s : String) → ("\n" <> s) ≡ Text.◌∷◌ "\n" s
line_feed-append s = cons-append "\n" "" s ∙ ap (Text.◌∷◌ "\n") (nil-append s)

lines-cons :
    (c : Char) (s : String)
    → nat_eq (code c) 10 ≡ false
    → lines (Text.◌∷◌ c s) ≡ before_line c (lines s)
unfolding lines
lines-cons c s h = rw h

is_line-cons :
    (c : Char) (s : String)
    → is_line (Text.◌∷◌ c s) ≡ true
    → (nat_eq (code c) 10 ≡ false) × (is_line s ≡ true)
unfolding is_line
is_line-cons c s h = elim (Bool-cases (nat_eq (code c) 10)) [
  | inl e ↦ ground arith
  | inr e ↦ (e, ground arith)
]

lines-line : (s rest : String) → is_line s ≡ true → lines (s <> "\n" <> rest) ≡ s ∷ lines rest
unfolding lines
lines-line Text.[] rest h = ap lines (nil-append ("\n" <> rest) ∙ line_feed-append rest)
lines-line (Text.◌∷◌ c s) rest h =
    let (here, later) = is_line-cons c s h in
    ap lines (cons-append c s ("\n" <> rest))
    ∙ (lines-cons c (s <> "\n" <> rest) here ∙ ap (before_line c) (lines-line s rest later))

line-cons :
    (c : Char) (s : String)
    → nat_eq (code c) 10 ≡ false
    → is_line s ≡ true
    → is_line (Text.◌∷◌ c s) ≡ true
unfolding is_line
line-cons c s h k = rw (h, k)

is_line-append : (s t : String) → is_line s ≡ true → is_line t ≡ true → is_line (s <> t) ≡ true
is_line-append Text.[] t h k = ap is_line (nil-append t) ∙ k
is_line-append (Text.◌∷◌ c s) t h k =
    let (here, later) = is_line-cons c s h in
    ap is_line (cons-append c s t) ∙ line-cons c (s <> t) here (is_line-append s t later k)

-- What follows a word at the beginning of a text.
unfoldable pub strip_prefix : String → String → Option String
strip_prefix Text.[] s = some s
strip_prefix (Text.◌∷◌ c word) Text.[] = none
strip_prefix (Text.◌∷◌ c word) (Text.◌∷◌ d s) =
    let rest = strip_prefix word s in if nat_eq (code c) (code d) then rest else none

strip_prefix-cons :
    (c : Char) (word s : String)
    → strip_prefix (Text.◌∷◌ c word) (Text.◌∷◌ c s) ≡ strip_prefix word s
unfolding strip_prefix
strip_prefix-cons c word s = ground arith

strip_prefix-append : (word s : String) → strip_prefix word (word <> s) ≡ some s
unfolding strip_prefix
strip_prefix-append Text.[] s = ap some (nil-append s)
strip_prefix-append (Text.◌∷◌ c word) s =
    ap (strip_prefix (Text.◌∷◌ c word)) (cons-append c word s)
    ∙ (strip_prefix-cons c word (word <> s) ∙ strip_prefix-append word s)

frame_before :
    Option String
    → Option String
    → String
    → Option (List (String × String))
    → Option (List (String × String))
frame_before (some event) (some payload) blank (some frames) =
    if blank == "" then some ((event, payload) ∷ frames) else none
frame_before _ _ blank _ = none

-- A frame is a line with the event, a line with the data, and an empty line.
unfoldable pub decode_lines : List String → Option (List (String × String))
unfolding frame_before strip_prefix
decode_lines [] = none
decode_lines (a ∷ []) = if a == "" then some [] else none
decode_lines (a ∷ b ∷ []) = none
decode_lines (a ∷ b ∷ c ∷ rest) =
    frame_before (strip_prefix "event: " a) (strip_prefix "data: " b) c (decode_lines rest)

unfoldable pub decode : String → Option (List (String × String))
unfolding lines decode_lines
decode s = decode_lines (lines s)

abbrev pub frame_of : String × String → String
frame_of x = frame x.0 x.1

abbrev pub IsFramed : String × String → Type 0
IsFramed x = (is_line x.0 ≡ true) × (is_line x.1 ≡ true)

frame-lines :
    (event payload rest : String)
    → (frame event payload <> rest)
      ≡ (("event: " <> event) <> "\n" <> (("data: " <> payload) <> "\n" <> ("" <> "\n" <> rest)))
frame-lines event payload rest =
    let after = "\n" <> ("" <> "\n" <> rest) in
    let blank : ("\n\n" <> rest) ≡ after =
      append_assoc "\n" "\n" rest ∙ ap (λ t. "\n" <> t) (sym (nil-append ("\n" <> rest))) in
    let end : ((payload <> "\n\n") <> rest) ≡ (payload <> after) =
      append_assoc payload "\n\n" rest ∙ ap (λ t. payload <> t) blank in
    let body : (("\ndata: " <> payload <> "\n\n") <> rest)
        ≡ ("\n" <> (("data: " <> payload) <> after)) =
      append_assoc "\ndata: " (payload <> "\n\n") rest
      ∙ (ap (λ t. "\ndata: " <> t) end
          ∙ (append_assoc "\n" "data: " (payload <> after)
              ∙ ap (λ t. "\n" <> t) (sym (append_assoc "data: " payload after)))) in
    append_assoc "event: " (event <> "\ndata: " <> payload <> "\n\n") rest
    ∙ (ap (λ t. "event: " <> t)
          (append_assoc event ("\ndata: " <> payload <> "\n\n") rest ∙ ap (λ t. event <> t) body)
        ∙ sym (append_assoc "event: " event ("\n" <> (("data: " <> payload) <> after))))

lines-frame :
    (event payload rest : String)
    → is_line event ≡ true
    → is_line payload ≡ true
    → lines (frame event payload <> rest)
      ≡ ("event: " <> event) ∷ ("data: " <> payload) ∷ "" ∷ lines rest
unfolding is_line
lines-frame event payload rest h k =
    ap lines (frame-lines event payload rest)
    ∙ (lines-line ("event: " <> event) _ (is_line-append "event: " event refl h)
        ∙ ap (λ ls. ("event: " <> event) ∷ ls)
            (lines-line ("data: " <> payload) _ (is_line-append "data: " payload refl k)
              ∙ ap (λ ls. ("data: " <> payload) ∷ ls) (lines-line "" rest refl)))

decode-frames :
    (xs : List (String × String)) → All IsFramed xs → decode (concat (map frame_of xs)) ≡ some xs
unfolding decode decode_lines frame_before
decode-frames [] h = refl
decode-frames ((event, payload) ∷ xs) ((h, k), hs) =
    let rest = decode_lines (lines (concat (map frame_of xs))) in
    ap decode_lines (lines-frame event payload (concat (map frame_of xs)) h k)
    ∙ (ap (λ a. frame_before a (strip_prefix "data: " ("data: " <> payload)) "" rest)
          (strip_prefix-append "event: " event)
        ∙ (ap (λ b. frame_before (some event) b "" rest) (strip_prefix-append "data: " payload)
            ∙ ap (frame_before (some event) (some payload) "") (decode-frames xs hs)))

-- The event's name and the text that is sent for its data.
abbrev pub sent : JsonDumps → StreamEvent → Outcome (String × String)
sent json_dumps e = do payload ← json_dumps e.body; ok (e.event, payload)

abbrev pub encoded : JsonDumps → StreamEvent → Outcome String
encoded json_dumps e = encode_sse_event json_dumps e.event e.body

traverse-encoded :
    (json_dumps : JsonDumps) (es : List StreamEvent) (frames : List String)
    → ((body : Fields) (payload : String) → json_dumps body ≡ ok payload → is_line payload ≡ true)
    → All (λ e. is_line e.event ≡ true) es
    → traverse (encoded json_dumps) es ≡ ok frames
    → (pairs : List (String × String)) × (traverse (sent json_dumps) es ≡ ok pairs)
      × All IsFramed pairs
      × (frames ≡ map frame_of pairs)
unfolding encode_sse_event
traverse-encoded json_dumps [] frames law names h = ([], refl, tt, sym (ok_injective h))
traverse-encoded json_dumps (e ∷ es) frames law (n, names) h =
    let (f, a, h1) = >>=-eq-ok (encoded json_dumps e) _ h in
    let (payload, p, q) = >>=-eq-ok (json_dumps e.body) _ a in
    let (fs, b, h2) = >>=-eq-ok (traverse (encoded json_dumps) es) _ h1 in
    let (pairs, t, framed, same) = traverse-encoded json_dumps es fs law names b in
    ((e.event, payload) ∷ pairs, rw (p, t), ((n, law e.body payload p), framed), cc)

-- Where no name of an event and no text that `json.dumps` gives has a line feed in it, a client
-- that reads the encoded events one after the other gets the names and the data of those events
-- back, in their order.
pub decode-encode_sse_event :
    (json_dumps : JsonDumps) (es : List StreamEvent) (frames : List String)
    → ((body : Fields) (payload : String) → json_dumps body ≡ ok payload → is_line payload ≡ true)
    → All (λ e. is_line e.event ≡ true) es
    → traverse (encoded json_dumps) es ≡ ok frames
    → (pairs : List (String × String)) × (traverse (sent json_dumps) es ≡ ok pairs)
      × (decode (concat frames) ≡ some pairs)
decode-encode_sse_event json_dumps es frames law names h =
    let (pairs, t, framed, same) = traverse-encoded json_dumps es frames law names h in
    (pairs, t, ap (λ fs. decode (concat fs)) same ∙ decode-frames pairs framed)
