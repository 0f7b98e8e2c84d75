-- ===== src/Llm/Examples.antt =====
-- Completions of internal/primitives/llm at concrete inputs.
use minicloud_platform.Prelude.{
  ap, subst, inr, inl, Bool-cases, ◌+◌, ◌≤◌, ◌≡◌, refl, true, false, some, List, [], ◌∷◌, arith,
  length, Bytes, codes, same, starts_with, lookup,
}
use minicloud_platform.Prelude.Fallible.{value}
use minicloud_platform.Llm.Engine.{
  Choice, Message, ChatRequest, ChatResponse, World, chat, stream, limit_of, trim_space,
}
use minicloud_platform.Llm.Words.{spaced, chat-stream}
use minicloud_platform.Llm.Registry.{Registry, Engine, tiny_engine, or_tiny}
use minicloud_platform.Llm.Inference.{
  Call, Answering, Answered, tiny-Answering, serve_http, serve_http-Answered,
}

abbrev still : World
still = record { uint64 = λ seed i. 10 + i; is_done = λ i. false }

abbrev hello : Message
hello = record { role = codes "user"; content = codes "hi there" }

abbrev question : ChatRequest
question = record { model = codes "tiny"; messages = hello ∷ []; max_tokens = 3 }

streamed_run :
    stream still question ≡ some (value (codes "cloud" ∷ codes "model" ∷ codes "workload" ∷ []))
unfolding stream same starts_with
streamed_run = refl

chat-stream_example :
    (r : ChatResponse) × (c : Choice) × (ts : List Bytes) × (chat still question ≡ some (value r))
    × (r.choices ≡ c ∷ [])
    × (stream still question ≡ some (value ts))
    × (c.message.content ≡ trim_space (spaced ts))
    × (r.usage.completion_tokens ≡ length ts)
    × (length ts ≤ limit_of 3)
unfolding same
chat-stream_example = chat-stream still question hello refl refl (λ k. refl)

-- one engine, under the name of its model
abbrev one_engine : Registry
one_engine = record { models = []; engines = (codes "tiny", tiny_engine still) ∷ [] }

abbrev asked : Call
asked = record {
  method = codes "POST";
  path = codes "/v1/chat/completions";
  body =
      value
        (record { model = codes "tiny"; messages = hello ∷ []; max_tokens = 2; streamed = false });
  can_flush = true;
  gone = λ k. false;
}

engines_answer : (k : Bytes) (e : Engine) → lookup k one_engine.engines ≡ some e → Answering e
unfolding lookup
engines_answer k e h = elim (Bool-cases (same (codes "tiny") k)) [
  | inl q ↦
      let i : some (tiny_engine still) ≡ some e = ground (arith, h, q) in
      subst Answering (ap (or_tiny still) i) (tiny-Answering still)
  | inr q ↦ ground (arith, h, q)
]

serve_http-Answered_example : Answered (serve_http still one_engine asked)
serve_http-Answered_example = serve_http-Answered still one_engine asked engines_answer
