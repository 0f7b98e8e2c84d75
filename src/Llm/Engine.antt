-- ===== src/Llm/Engine.antt =====
-- TinyEngine of internal/primitives/llm/llm.go. The generator of random numbers is a parameter, with the number of
-- each call for a seed; a cancelled context is seen in the rounds in which it is; texts are ASCII.
use minicloud_platform.Prelude.{
  ℕ, zero, suc, ◌+◌, ◌*◌, ◌%◌, Bool, true, false, ◌&&◌, ◌||◌, Option, none, some, List, [], ◌∷◌,
  ◌++◌, leb, ◌==◌, if◌then◌else◌, length, get_elem?, Bytes, codes, same,
}
use minicloud_platform.Prelude.Fallible.{Fallible, value, failed}
use minicloud_platform.Prelude.Int64.{i64, lt_i64, le_i64}
use minicloud_platform.Scheduler.Match.{contains}

pub record Message : Type 0 where
  pub role : Bytes
  pub content : Bytes

-- `max_tokens` is an int; the temperature has no effect.
pub record ChatRequest : Type 0 where
  pub model : Bytes
  pub messages : List Message
  pub max_tokens : ℕ

pub record Usage : Type 0 where
  pub prompt_tokens : ℕ
  pub completion_tokens : ℕ
  pub total_tokens : ℕ

pub record Choice : Type 0 where
  pub message : Message
  pub finish_reason : Bytes

pub record ChatResponse : Type 0 where
  pub model : Bytes
  pub choices : List Choice
  pub usage : Usage

-- What the engine meets: the random numbers of a seed, and the rounds in which the context is done.
pub record World : Type 0 where
  pub uint64 : Bytes → ℕ → ℕ
  pub is_done : ℕ → Bool

abbrev pub vocab : List Bytes
vocab =
    codes "the"
    ∷ codes "a"
    ∷ codes "an"
    ∷ codes "of"
    ∷ codes "to"
    ∷ codes "and"
    ∷ codes "in"
    ∷ codes "on"
    ∷ codes "for"
    ∷ codes "with"
    ∷ codes "cloud"
    ∷ codes "model"
    ∷ codes "workload"
    ∷ codes "node"
    ∷ codes "service"
    ∷ codes "deployment"
    ∷ codes "hello"
    ∷ codes "world"
    ∷ codes "this"
    ∷ codes "that"
    ∷ codes "is"
    ∷ codes "are"
    ∷ codes "be"
    ∷ codes "or"
    ∷ codes "not"
    ∷ codes "yes"
    ∷ codes "no"
    ∷ codes "ok"
    ∷ codes "ack"
    ∷ codes "running"
    ∷ codes "scheduled"
    ∷ codes "ready"
    ∷ codes "complete"
    ∷ codes "data"
    ∷ codes "compute"
    ∷ codes "storage"
    ∷ codes "network"
    ∷ codes "policy"
    ∷ codes "role"
    ∷ codes "key"
    ∷ codes "happy"
    ∷ codes "thanks"
    ∷ codes "welcome"
    ∷ []

abbrev pub is_space : ℕ → Bool
is_space c = c == 32 || (leb 9 c && leb c 13)

-- `len(strings.Fields(s))`; the flag says that the place is in a word
unfoldable pub fields : Bool → Bytes → ℕ
fields inside [] = 0
fields inside (c ∷ s) =
    let after = fields false s in
    let within = fields true s in if is_space c then after else (if inside then 0 else 1) + within

-- `strings.TrimSpace`
abbrev pub trim_left : Bytes → Bytes
trim_left [] = []
trim_left (c ∷ s) = let rest = trim_left s in if is_space c then rest else c ∷ s

abbrev pub trim_right : Bytes → Bytes
trim_right [] = []
trim_right (c ∷ s) = let rest = trim_right s in if is_space c && same rest [] then [] else c ∷ rest

abbrev pub trim_space : Bytes → Bytes
trim_space s = trim_right (trim_left s)

unfoldable pub should_stop : Bytes → Bool
unfolding contains
should_stop s =
    contains s (codes "ack")
    || (contains s (codes "complete")
        || (contains s (codes "ready") || contains s (codes "thanks")))

-- the token of a random number; the number is below the length of the vocabulary
abbrev pub or_empty : Option Bytes → Bytes
or_empty none = []
or_empty (some t) = t

unfoldable pub token_of : ℕ → Bytes
token_of n = or_empty (get_elem? vocab (n % 43))

-- `if maxTokens <= 0 { maxTokens = 64 }`
abbrev pub limit_of : ℕ → ℕ
limit_of max_tokens = if le_i64 max_tokens 0 then 64 else max_tokens

-- the prompt of several messages
unfoldable pub transcript : List Message → Bytes
transcript [] = []
transcript (m ∷ ms) = m.role ++ b':' ∷ (m.content ++ 10 ∷ transcript ms)

abbrev pub last_content : Message → List Message → Bytes
last_content m [] = m.content
last_content m (n ∷ ms) = last_content n ms

abbrev pub prompt_of : Message → List Message → Bytes
prompt_of m [] = m.content
prompt_of m (n ∷ ms) = transcript (m ∷ n ∷ ms)

module _ (w : World) (seed : Bytes) where
  -- The loop of Chat: the rounds that are left, the round, and what is written. Nothing is the error of the context.
  unfoldable pub generate : ℕ → ℕ → Bytes → Option Bytes
  unfolding token_of should_stop
  generate zero i out = some out
  generate (suc rounds) i out =
      let more = out ++ (token_of (w.uint64 seed i) ++ b' ' ∷ []) in
      let rest = generate rounds (i + 1) more in
      if w.is_done i then none else if should_stop more then some more else rest

  -- the loop of Stream: the tokens that are sent
  unfoldable pub emit : ℕ → ℕ → Bytes → List Bytes
  unfolding token_of should_stop
  emit zero i out = []
  emit (suc rounds) i out =
      let tok = token_of (w.uint64 seed i) in
      let more = out ++ (tok ++ b' ' ∷ []) in
      let rest = emit rounds (i + 1) more in
      if w.is_done i then [] else if should_stop more then tok ∷ [] else tok ∷ rest

abbrev pub seed_of : Bytes → Bytes → Bytes
seed_of model prompt = model ++ b':' ∷ prompt

abbrev pub finish_of : ℕ → Bytes → Bytes
finish_of max_tokens out =
    if lt_i64 (length out) (i64 (max_tokens * 5)) then codes "length" else codes "stop"

unfoldable pub respond : Bytes → Bytes → ℕ → Bytes → ChatResponse
unfolding fields
respond model prompt max_tokens out =
    let content = trim_space out in
    let p = fields false prompt in
    let n = fields false content in
    record {
      model = model;
      choices =
          record {
            message = record { role = codes "assistant"; content = content };
            finish_reason = finish_of max_tokens out;
          }
          ∷ [];
      usage = record { prompt_tokens = p; completion_tokens = n; total_tokens = p + n };
    }

abbrev pub model_required : Bytes
model_required = codes "llm: model required"

abbrev pub cancelled : Bytes
cancelled = codes "context canceled"

abbrev pub finished : Bytes → Bytes → ℕ → Option Bytes → Fallible ChatResponse
finished model prompt max_tokens none = failed cancelled
finished model prompt max_tokens (some out) = value (respond model prompt max_tokens out)

abbrev pub chat_with : World → Bytes → ℕ → Bytes → Fallible ChatResponse
chat_with w model max_tokens prompt =
    finished model prompt max_tokens (generate w (seed_of model prompt) max_tokens 0 [])

-- Without messages the last one is looked for at -1, a panic: nothing.
unfoldable pub chat : World → ChatRequest → Option (Fallible ChatResponse)
unfolding generate respond transcript
chat w q = if same q.model [] then some (failed model_required) else elim q.messages [
  | [] ↦ none
  | m ∷ ms ↦ some (chat_with w q.model (limit_of q.max_tokens) (prompt_of m ms))
]

-- The prompt is the last message alone.
unfoldable pub stream : World → ChatRequest → Option (Fallible (List Bytes))
unfolding emit
stream w q = if same q.model [] then some (failed model_required) else elim q.messages [
  | [] ↦ none
  | m ∷ ms ↦
      some (value (emit w (seed_of q.model (last_content m ms)) (limit_of q.max_tokens) 0 []))
]
