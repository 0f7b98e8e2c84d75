-- ===== src/Llm/Words.antt =====
-- What TinyEngine of internal/primitives/llm/llm.go writes: words and spaces.
use minicloud_platform.Prelude.{
  codes, ℕ, zero, suc, ◌+◌, ◌%◌, ◌≤◌, ◌<◌, ◌≡◌, refl, sym, ap, ◌∙◌, inl, inr, Bool, true, false,
  some, List, [], ◌∷◌, ◌++◌, append-nil, append_assoc, arith, if◌then◌else◌, Bool-cases, either,
  length, get_elem?, All, Bytes, same, same_iff,
}
use minicloud_platform.Prelude.Fallible.{value}
use minicloud_platform.Llm.Engine.{
  Choice, finish_of, Message, ChatRequest, ChatResponse, World, vocab, is_space, fields, trim_left,
  trim_right, trim_space, should_stop, or_empty, token_of, limit_of, generate, emit, seed_of,
  respond, chat, stream,
}

-- Tokens as they are written, each with a space behind it.
abbrev pub spaced : List Bytes → Bytes
spaced [] = []
spaced (t ∷ ts) = t ++ b' ' ∷ spaced ts

-- A text that is not empty and has no space.
abbrev pub IsWord : Bytes → Type 0
IsWord t = (same t [] ≡ false) × All (λ c. is_space c ≡ false) t

fields_within :
    (t s : Bytes) → All (λ c. is_space c ≡ false) t → fields true (t ++ b' ' ∷ s) ≡ fields false s
unfolding fields
fields_within [] s h = refl
fields_within (c ∷ t) s (e, h) = rw e (omega (arith, fields_within t s h))

fields_word : (t s : Bytes) → IsWord t → fields false (t ++ b' ' ∷ s) ≡ suc (fields false s)
unfolding fields same
fields_word [] s (e, h) = ground (arith, e)
fields_word (c ∷ t) s (e, (d, h)) = rw d (omega (arith, fields_within t s h))

fields-spaced : (ts : List Bytes) → All IsWord ts → fields false (spaced ts) ≡ length ts
unfolding fields
fields-spaced [] h = refl
fields-spaced (t ∷ ts) (w, h) = fields_word t (spaced ts) w ∙ ap suc (fields-spaced ts h)

fields-trim_left : (s : Bytes) → fields false (trim_left s) ≡ fields false s
unfolding fields
fields-trim_left [] = refl
fields-trim_left (c ∷ s) = ground (arith, fields-trim_left s)

fields-trim_right : (b : Bool) (s : Bytes) → fields b (trim_right s) ≡ fields b s
unfolding fields same
fields-trim_right b [] = refl
fields-trim_right b (c ∷ s) = elim (Bool-cases (is_space c)) [
  | inr q ↦ rw q (rw q (ap (λ n. (if b then 0 else 1) + n) (fields-trim_right true s)))
  | inl q ↦ elim (Bool-cases (same (trim_right s) [])) [
    | inr e ↦ rw (q, e) (rw q (fields-trim_right false s))
    | inl e ↦
        let gone = (same_iff (trim_right s) []).0 e in
        let none_left : fields false [] ≡ fields false s =
          ap (fields false) (sym gone) ∙ fields-trim_right false s in
        rw (q, e) none_left
  ]
]

fields-trim_space : (s : Bytes) → fields false (trim_space s) ≡ fields false s
fields-trim_space s = fields-trim_right false (trim_left s) ∙ fields-trim_left s

-- The words of the vocabulary are words.
vocab-IsWord : All IsWord vocab
unfolding same
vocab-IsWord = ground arith

All-or_empty :
    (P : Bytes → Type 0) (ts : List Bytes) (i : ℕ)
    → All P ts
    → i < length ts
    → P (or_empty (get_elem? ts i))
All-or_empty P [] i h l = absurd (omega (arith, l))
All-or_empty P (t ∷ ts) zero (p, h) l = p
All-or_empty P (t ∷ ts) (suc i) (p, h) l = All-or_empty P ts i h (omega (arith, l))

token_of-IsWord : (n : ℕ) → IsWord (token_of n)
unfolding token_of
token_of-IsWord n = All-or_empty IsWord vocab (n % 43) vocab-IsWord (omega arith)

module _ (w : World) (seed : Bytes) where
  emit-IsWord : (rounds i : ℕ) (out : Bytes) → All IsWord (emit w seed rounds i out)
  unfolding emit
  emit-IsWord zero i out = tt
  emit-IsWord (suc rounds) i out =
      let tok = token_of (w.uint64 seed i) in
      let word = token_of-IsWord (w.uint64 seed i) in
      let rest = emit-IsWord rounds (i + 1) (out ++ (tok ++ b' ' ∷ [])) in
      either (All IsWord) (w.is_done i) tt
        (either (All IsWord) (should_stop (out ++ (tok ++ b' ' ∷ []))) (word, tt) (word, rest))

  emit-length_le : (rounds i : ℕ) (out : Bytes) → length (emit w seed rounds i out) ≤ rounds
  unfolding emit
  emit-length_le zero i out = omega arith
  emit-length_le (suc rounds) i out =
      let tok = token_of (w.uint64 seed i) in
      ground (arith, emit-length_le rounds (i + 1) (out ++ (tok ++ b' ' ∷ [])))

  spaced_more :
      (out tok : Bytes) (ts : List Bytes)
      → (out ++ (tok ++ b' ' ∷ [])) ++ spaced ts ≡ out ++ spaced (tok ∷ ts)
  spaced_more out tok ts =
      append_assoc out (tok ++ b' ' ∷ []) (spaced ts)
      ∙ ap (λ x. out ++ x) (append_assoc tok (b' ' ∷ []) (spaced ts))

  -- Chat writes what Stream sends.
  generate-emit :
      (rounds i : ℕ) (out r : Bytes)
      → generate w seed rounds i out ≡ some r
      → r ≡ out ++ spaced (emit w seed rounds i out)
  unfolding generate emit
  generate-emit zero i out r h = ground (arith, h, append-nil out)
  generate-emit (suc rounds) i out r h =
      let tok = token_of (w.uint64 seed i) in
      let more = out ++ (tok ++ b' ' ∷ []) in
      elim (Bool-cases (w.is_done i)) [
        | inl q ↦ ground (arith, h, q)
        | inr q ↦ elim (Bool-cases (should_stop more)) [
          | inl s ↦
              let e : more ≡ r = ground (arith, h, q, s) in
              rw (q, s) (sym e ∙ sym (append-nil more) ∙ spaced_more out tok [])
          | inr s ↦
              let ih = generate-emit rounds (i + 1) more r (ground (arith, h, q, s)) in
              rw (q, s) (ih ∙ spaced_more out tok (emit w seed rounds (i + 1) more))
        ]
      ]

  -- A loop whose context is not done ends with a text.
  generate_total :
      (rounds i : ℕ) (out : Bytes)
      → ((k : ℕ) → w.is_done k ≡ false)
      → (r : Bytes) × (generate w seed rounds i out ≡ some r)
  unfolding generate
  generate_total zero i out live = (out, refl)
  generate_total (suc rounds) i out live =
      let tok = token_of (w.uint64 seed i) in
      let more = out ++ (tok ++ b' ' ∷ []) in
      elim (Bool-cases (should_stop more)) [
        | inl s ↦ (more, rw (live i, s) refl)
        | inr s ↦ let (r, e) = generate_total rounds (i + 1) more live in (r, rw (live i, s) e)
      ]

-- For a model with a name, one message and a context that is not done, Chat and Stream both answer, Chat with one
-- choice: its content is the tokens of the stream with spaces between and none around, its token count is their number, which
-- is at most the limit that was asked for, or 64 if that is not positive.
pub chat-stream :
    (w : World) (q : ChatRequest) (m : Message)
    → same q.model [] ≡ false
    → q.messages ≡ m ∷ []
    → ((k : ℕ) → w.is_done k ≡ false)
    → (r : ChatResponse) × (c : Choice) × (ts : List Bytes) × (chat w q ≡ some (value r))
      × (r.choices ≡ c ∷ [])
      × (stream w q ≡ some (value ts))
      × (c.message.content ≡ trim_space (spaced ts))
      × (r.usage.completion_tokens ≡ length ts)
      × (length ts ≤ limit_of q.max_tokens)
unfolding chat stream respond
chat-stream w q m named one live =
    let seed = seed_of q.model m.content in
    let n = limit_of q.max_tokens in
    let ts = emit w seed n 0 [] in
    let (out, e) = generate_total w seed n 0 [] live in
    let written : out ≡ spaced ts = generate-emit w seed n 0 [] out e in
    (
      respond q.model m.content n out,
      record {
        message = record { role = codes "assistant"; content = trim_space out };
        finish_reason = finish_of n out;
      },
      ts,
      rw (named, chat, one, e) refl,
      refl,
      rw (named, stream, one) refl,
      ap trim_space written,
      fields-trim_space out
          ∙ ap (fields false) written
          ∙ fields-spaced ts (emit-IsWord w seed n 0 []),
      emit-length_le w seed n 0 [],
    )
