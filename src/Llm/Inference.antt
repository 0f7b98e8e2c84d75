-- ===== src/Llm/Inference.antt =====
-- The front-end of internal/inference/inference.go. The decoder of JSON answers with a body or the text of an error;
-- the times and ids of a response are left out.
use minicloud_platform.Prelude.{
  arith, either, ℕ, ◌+◌, ◌≡◌, refl, sym, subst, inl, inr, Bool, true, false, not, ◌&&◌, ◌||◌,
  Option, none, some, List, [], ◌∷◌, ◌++◌, if◌then◌else◌, Bool-cases, Option-cases, Bytes, codes,
  same, lookup,
}
use minicloud_platform.Prelude.Fallible.{Fallible, value, failed}
use minicloud_platform.Identity.Rules.{ends_with}
use minicloud_platform.Llm.Engine.{
  Choice, Usage, finished, respond, last_content, seed_of, emit, prompt_of, limit_of, chat_with,
  model_required, Message, ChatRequest, ChatResponse, World, chat, stream,
}
use minicloud_platform.Llm.Registry.{Engine, Registry, tiny_engine, or_tiny, resolve, names}

-- the body of a request; `streamed` is the field Stream
pub record ChatBody : Type 0 where
  pub model : Bytes
  pub messages : List Message
  pub max_tokens : ℕ
  pub streamed : Bool

-- What is written: an error, a completion, the tokens of a stream and whether its end is marked, an
-- event that reports an error, or the models.
pub data Reply : Type 0 where
  error : ℕ → Bytes → Reply
  completion : Bytes → Choice → Usage → Reply
  events : List Bytes → Bool → Reply
  error_event : Bytes → Reply
  models : List Bytes → Reply

pub record Call : Type 0 where
  pub method : Bytes
  pub path : Bytes
  pub body : Fallible ChatBody
  pub can_flush : Bool
  pub gone : ℕ → Bool  -- whether the client is gone before the n-th token

abbrev pub request_of : ChatBody → ChatRequest
request_of b = record { model = b.model; messages = b.messages; max_tokens = b.max_tokens }

-- the loop over the tokens
unfoldable pub send : (ℕ → Bool) → ℕ → List Bytes → List Bytes → Reply
send gone k sent [] = events sent true
send gone k sent (t ∷ ts) =
    let rest = send gone (k + 1) (sent ++ t ∷ []) ts in if gone k then events sent false else rest

abbrev pub streamed_reply : Call → Fallible (List Bytes) → Reply
streamed_reply c (failed e) = error_event e
streamed_reply c (value ts) = send c.gone 0 [] ts

-- an engine that panics takes the handler with it
abbrev pub after_stream : Call → Option (Fallible (List Bytes)) → Option Reply
after_stream c none = none
after_stream c (some r) = some (streamed_reply c r)

unfoldable pub stream_chat : Engine → ChatRequest → Call → Option Reply
unfolding send
stream_chat e q c =
    if not c.can_flush
    then some (error 500 (codes "streaming unsupported"))
    else after_stream c (e.stream q)

-- `resp.Choices[0]`, which panics if there is none
abbrev pub first_choice : Bytes → Usage → List Choice → Option Reply
first_choice model usage [] = none
first_choice model usage (c ∷ cs) = some (completion model c usage)

abbrev pub completed : Bytes → Fallible ChatResponse → Option Reply
completed model (failed e) = some (error 500 e)
completed model (value r) = first_choice model r.usage r.choices

abbrev pub after_chat : Bytes → Option (Fallible ChatResponse) → Option Reply
after_chat model none = none
after_chat model (some r) = completed model r

abbrev pub is_nil {ℓ} : {A : Type ℓ} → List A → Bool
is_nil [] = true
is_nil (x ∷ xs) = false

abbrev pub chat_with_body : World → Registry → Call → Fallible ChatBody → Option Reply
chat_with_body w r c (failed e) = some (error 400 e)
chat_with_body w r c (value b) =
    if same b.model [] || is_nil b.messages
    then some (error 400 (codes "model and messages required"))
    else if b.streamed
    then stream_chat (resolve w b.model r) (request_of b) c
    else after_chat b.model ((resolve w b.model r).chat (request_of b))

unfoldable pub handle_chat : World → Registry → Call → Option Reply
unfolding stream_chat resolve
handle_chat w r c = chat_with_body w r c c.body

unfoldable pub serve_http : World → Registry → Call → Option Reply
unfolding handle_chat names ends_with
serve_http w r c =
    if same c.path (codes "/v1/models") && same c.method (codes "GET")
    then some (models (names r))
    else if ends_with c.path (codes "/chat/completions") && same c.method (codes "POST")
    then handle_chat w r c
    else some (error 404 (codes "404 page not found"))

abbrev pub Answered : Option Reply → Type 0
Answered o = (a : Reply) × (o ≡ some a)

-- an error, or an answer that has a choice
abbrev pub HasChoice : Fallible ChatResponse → Type 0
HasChoice (failed e) = Unit
HasChoice (value r) = (c : Choice) × (cs : List Choice) × (r.choices ≡ c ∷ cs)

-- An engine that answers each request that has a message, Chat with a choice or an error.
abbrev pub Answering : Engine → Type 0
Answering e =
    (q : ChatRequest) (m : Message) (ms : List Message)
    → q.messages ≡ m ∷ ms
    → ((a : Fallible ChatResponse) × (e.chat q ≡ some a) × HasChoice a)
      × ((b : Fallible (List Bytes)) × (e.stream q ≡ some b))

finished-HasChoice :
    (model prompt : Bytes) (n : ℕ) (o : Option Bytes) → HasChoice (finished model prompt n o)
unfolding respond
finished-HasChoice model prompt n none = tt
finished-HasChoice model prompt n (some out) = (_, [], refl)

pub tiny-Answering : (w : World) → Answering (tiny_engine w)
unfolding tiny_engine chat stream
tiny-Answering w q m ms h = elim (Bool-cases (same q.model [])) [
  | inl n ↦
      ((failed model_required, rw (n, chat) refl, tt), (failed model_required, rw (n, stream) refl))
  | inr n ↦ (
    (
      chat_with w q.model (limit_of q.max_tokens) (prompt_of m ms),
      rw (n, h, chat) refl,
      finished-HasChoice q.model (prompt_of m ms) (limit_of q.max_tokens) _,
    ),
    (
      value (emit w (seed_of q.model (last_content m ms)) (limit_of q.max_tokens) 0 []),
      rw (n, h, stream) refl,
    ),
  )
]

completed-Answered :
    (model : Bytes) (a : Fallible ChatResponse) → HasChoice a → Answered (completed model a)
completed-Answered model (failed e) h = (error 500 e, refl)
completed-Answered model (value r) (c, cs, h) = (completion model c r.usage, rw h refl)

resolve-Answering :
    (w : World) (name : Bytes) (r : Registry)
    → ((k : Bytes) (e : Engine) → lookup k r.engines ≡ some e → Answering e)
    → Answering (resolve w name r)
unfolding resolve
resolve-Answering w name r all = elim (Option-cases (lookup name r.engines)) [
  | inl e ↦ subst (λ o. Answering (or_tiny w o)) (sym e) (tiny-Answering w)
  | inr (e, h) ↦ subst (λ o. Answering (or_tiny w o)) (sym h) (all name e h)
]

Answered-test :
    (b : Bool) (x y : Option Reply) → Answered x → Answered y → Answered (if b then x else y)
Answered-test b x y hx hy = either Answered b hx hy

not_nil :
    (ms : List Message)
    → is_nil ms ≡ false
    → (m : Message) × (rest : List Message) × (ms ≡ m ∷ rest)
not_nil [] h = ground (arith, h)
not_nil (m ∷ rest) h = (m, rest, refl)

refused-or : (a b : Bool) → (a || b) ≡ false → b ≡ false
refused-or a b h = ground (arith, h)

stream_chat-Answered :
    (e : Engine) (q : ChatRequest) (c : Call) (b : Fallible (List Bytes))
    → e.stream q ≡ some b
    → Answered (stream_chat e q c)
unfolding stream_chat
stream_chat-Answered e q c b h = elim (Bool-cases (not c.can_flush)) [
  | inl f ↦ (error 500 (codes "streaming unsupported"), rw (stream_chat, f) refl)
  | inr f ↦ (streamed_reply c b, rw (stream_chat, f, h) refl)
]

body-Answered :
    (w : World) (r : Registry) (c : Call) (b : Fallible ChatBody)
    → ((k : Bytes) (e : Engine) → lookup k r.engines ≡ some e → Answering e)
    → Answered (chat_with_body w r c b)
body-Answered w r c (failed e) all = (error 400 e, refl)
body-Answered w r c (value b) all = elim (Bool-cases (same b.model [] || is_nil b.messages)) [
  | inl n ↦ (error 400 (codes "model and messages required"), rw (n, chat_with_body) refl)
  | inr n ↦
      let e = resolve w b.model r in
      let (m, rest, h) = not_nil b.messages (refused-or (same b.model []) (is_nil b.messages) n) in
      let ((a, ea, ha), (t, et)) = resolve-Answering w b.model r all (request_of b) m rest h in
      rw (n, chat_with_body)
        (Answered-test b.streamed (stream_chat e (request_of b) c)
          (after_chat b.model (e.chat (request_of b)))
          (stream_chat-Answered e (request_of b) c t et)
          (let (x, ex) = completed-Answered b.model a ha in (x, rw ea ex)))
]

-- If each engine of the registry answers each request that has a message, Chat with a choice or an error, every call is
-- answered: neither a body that cannot be read nor an empty list of messages makes the front-end panic.
pub serve_http-Answered :
    (w : World) (r : Registry) (c : Call)
    → ((k : Bytes) (e : Engine) → lookup k r.engines ≡ some e → Answering e)
    → Answered (serve_http w r c)
unfolding serve_http handle_chat
serve_http-Answered w r c all =
    Answered-test (same c.path (codes "/v1/models") && same c.method (codes "GET")) _ _
      (models (names r), refl)
      (Answered-test (ends_with c.path (codes "/chat/completions") && same c.method (codes "POST"))
        _ _ (body-Answered w r c c.body all) (error 404 (codes "404 page not found"), refl))
