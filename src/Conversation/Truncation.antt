-- ===== src/Conversation/Truncation.antt =====
-- What is left of a conversation that is too long (adapter/response.py).
use vfront.Common.{
  ℕ, Str, List, [], ◌∷◌, ◌++◌, ◌&&◌, Bool, true, false, not, ◌||◌, Option, none, some, leb, any,
  all, keep, ◌≡◌, ◌⊎◌, inl, inr, refl, sym, ap, ◌∙◌, Bool-cases, if◌then◌else◌, arith,
}
use mathlib.Core.List.{append-nil}
use vfront.Output.{is_empty}
use vfront.Conversation.{
  Content, text, parts, absent, Message, FunctionToolDefinition, is_system, build_tools_prompt,
  extended, extend_first, inject_tools_prompt, without_marks, build_generation_messages, if_room,
  count, count_tokens, shrink, truncate_messages_for_context,
}

abbrev has_text : Content → Bool
has_text (text s) = true
has_text _ = false

-- The tools prompt can be added to each message of the system.
abbrev pub is_writable : Message → Bool
is_writable m = not (is_system m) || has_text m.content

-- The code computes a result, and does not raise.
abbrev Returns {ℓ} : {A : Type ℓ} → Option A → Type ℓ
Returns {A = A} o = (a : A) × (o ≡ some a)

extended-Returns :
    (prompt : Str) (content : Content) → has_text content ≡ true → Returns (extended prompt content)
extended-Returns prompt (text s) h = (_, refl)
extended-Returns prompt (parts s) h = absurd (cc h)
extended-Returns prompt absent h = absurd (cc h)

extend_first-Returns :
    (prompt : Str) (messages : List Message)
    → all is_writable messages ≡ true
    → Returns (extend_first prompt messages)
unfolding extend_first
extend_first-Returns prompt [] h = ([], refl)
extend_first-Returns prompt (m ∷ messages) h = elim (Bool-cases (is_system m)) [
  | inl first ↦
      let (content, e) = extended-Returns prompt m.content (ground arith) in rw (first, e) (_, refl)
  | inr other ↦
      let (rest, e) = extend_first-Returns prompt messages (ground arith) in rw (other, e) (_, refl)
]

without_marks-writable :
    (messages : List Message)
    → all is_writable messages ≡ true
    → all is_writable (without_marks messages) ≡ true
unfolding without_marks
without_marks-writable [] h = refl
without_marks-writable (m ∷ messages) h = ground (arith, without_marks-writable messages)

if-Returns {ℓ} :
    {A : Type ℓ} (b : Bool) (x y : Option A) → Returns x → Returns y → Returns (if b then x else y)
if-Returns true x y h k = h
if-Returns false x y h k = k

all-append :
    (a b : List Message)
    → all is_writable a ≡ true
    → all is_writable b ≡ true
    → all is_writable (a ++ b) ≡ true
all-append [] b h k = k
all-append (m ∷ a) b h k = ground (arith, all-append a b)

all-keep :
    (p : Message → Bool) (messages : List Message)
    → all is_writable messages ≡ true
    → all is_writable (keep p messages) ≡ true
all-keep p [] h = refl
all-keep p (m ∷ messages) h = ground (arith, all-keep p messages)

abbrev pub has_room : ℕ → Option ℕ → Bool
has_room limit none = false
has_room limit (some n) = leb n limit

module _ (tokenize : List Message → List ℕ) (tools : List FunctionToolDefinition) where
  counted : (o : Option (List Message)) → Returns o → Returns (count tokenize tools o)
  counted none (given, e) = absurd (cc e)
  counted (some given) r = (_, refl)

  count_tokens-Returns :
      (messages : List Message)
      → all is_writable messages ≡ true
      → Returns (count_tokens tokenize tools messages)
  unfolding count_tokens build_generation_messages inject_tools_prompt
  count_tokens-Returns messages h =
      let prompt = build_tools_prompt tools in
      let told : Returns (inject_tools_prompt (without_marks messages) tools) =
        if-Returns (is_empty prompt) _ _ (_, refl)
          (if-Returns (any is_system (without_marks messages)) _ _
            (extend_first-Returns prompt (without_marks messages)
              (without_marks-writable messages h))
            (_, refl)) in
      counted _ told

  -- Whether the model has room for the messages.
  abbrev pub fits : ℕ → List Message → Bool
  fits limit messages = has_room limit (count_tokens tokenize tools messages)

  if_room-eq :
      (limit n : ℕ) (b : Bool) (messages : List Message) (otherwise : Option (List Message))
      → count_tokens tokenize tools messages ≡ some n
      → leb n limit ≡ b
      → if_room limit messages otherwise (count_tokens tokenize tools messages)
        ≡ (if b then some messages else otherwise)
  if_room-eq limit n b messages otherwise e h =
      ap (if_room limit messages otherwise) e ∙ ap (λ b. if b then some messages else otherwise) h

  -- With one message dropped, and another, and so on: too many are left until `kept` is.
  abbrev pub none_fits : ℕ → List Message → List Message → List Message → Bool
  none_fits limit system [] kept = true
  none_fits limit system (m ∷ []) kept = true
  none_fits limit system (m ∷ n ∷ dropped) kept =
      not (fits limit (system ++ (n ∷ dropped ++ kept)))
      && none_fits limit system (n ∷ dropped) kept

  -- The oldest messages are dropped, and no more of them than it takes.
  abbrev pub Shortened : ℕ → List Message → List Message → List Message → Type 0
  Shortened limit system conversation result =
      (dropped : List Message) × (kept : List Message) × (conversation ≡ dropped ++ kept)
      × (result ≡ system ++ kept)
      × ((fits limit result ≡ true) ⊎ (kept ≡ []))
      × (none_fits limit system dropped kept ≡ true)

  longest :
      (limit : ℕ) (system conversation : List Message) (m : Message) (dropped kept : List Message)
      → conversation ≡ dropped ++ kept
      → fits limit (system ++ conversation) ≡ false
      → none_fits limit system dropped kept ≡ true
      → none_fits limit system (m ∷ dropped) kept ≡ true
  longest limit system conversation m [] kept split too_long h = refl
  longest limit system conversation m (y ∷ dropped) kept split too_long h =
      let over = ap (λ l. fits limit (system ++ l)) (sym split) ∙ too_long in
      ap (λ b. not b && none_fits limit system (y ∷ dropped) kept) over ∙ h

  shrink-Shortened :
      (limit : ℕ) (system conversation : List Message)
      → all is_writable system ≡ true
      → all is_writable conversation ≡ true
      → (result : List Message) × (shrink tokenize tools limit system conversation ≡ some result)
        × Shortened limit system conversation result
  unfolding shrink
  shrink-Shortened limit system [] h k =
      (system, refl, ([], [], refl, sym (append-nil system), inr refl, refl))
  shrink-Shortened limit system (m ∷ conversation) h k =
      let rest : all is_writable conversation ≡ true = ground arith in
      let (n, e) =
        count_tokens-Returns (system ++ conversation) (all-append system conversation h rest) in
      elim (Bool-cases (leb n limit)) [
        | inl room ↦ (
          system ++ conversation,
          if_room-eq limit n true (system ++ conversation) _ e room,
          (m ∷ [], conversation, refl, refl, inl (ap (has_room limit) e ∙ room), refl),
        )
        | inr full ↦
            let (result, same, (dropped, kept, split, is, or, none_did)) =
              shrink-Shortened limit system conversation h rest in
            let too_long : fits limit (system ++ conversation) ≡ false =
              ap (has_room limit) e ∙ full in
            (
              result,
              if_room-eq limit n false (system ++ conversation) _ e full ∙ same,
              (
                m ∷ dropped,
                kept,
                ap (λ l. m ∷ l) split,
                is,
                or,
                longest limit system conversation m dropped kept split too_long none_did,
              ),
            )
      ]

  -- Where every message of the system holds a text, the truncation does not raise. It leaves the
  -- messages as they are if there is no limit or they fit. If not, it gives the messages of the system
  -- and after them the end of the rest of the conversation: a part that fits, or nothing of it, and
  -- no longer part, short of all of it, would fit.
  pub truncate_messages_for_context_lem :
      (messages : List Message) (limit : ℕ)
      → all is_writable messages ≡ true
      → (result : List Message) × (truncate_messages_for_context tokenize tools messages limit
          ≡ some result)
        × (((limit ≡ 0) ⊎ (fits limit messages ≡ true)) × (result ≡ messages)
            ⊎ Shortened limit
                (keep is_system messages)
                (keep (λ m. not (is_system m)) messages)
                result)
  unfolding truncate_messages_for_context
  truncate_messages_for_context_lem messages limit h = elim (Bool-cases (leb limit 0)) [
    | inl free ↦ (messages, rw free refl, inl (inl (ground arith), refl))
    | inr bound ↦
        let (n, e) = count_tokens-Returns messages h in
        elim (Bool-cases (leb n limit)) [
          | inl room ↦ (
            messages,
            rw bound (if_room-eq limit n true messages _ e room),
            inl (inr (ap (has_room limit) e ∙ room), refl),
          )
          | inr full ↦
              let (result, same, how) =
                shrink-Shortened limit (keep is_system messages)
                  (keep (λ m. not (is_system m)) messages) (all-keep is_system messages h)
                  (all-keep (λ m. not (is_system m)) messages h) in
              (result, rw bound (if_room-eq limit n false messages _ e full ∙ same), inr how)
        ]
  ]
