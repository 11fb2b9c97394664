-- ===== src/Requests/Chat.antt =====
-- `validate_chat_request` and `validate_responses_request` of compat/validators.py.
use vfront.Common.{
  ℕ, ℤ, pos, Str, List, [], ◌∷◌, Bool, true, false, ◌&&◌, Option, none, some, ◌≡◌, ◌≢◌, ◌↔◌, ◌⊎◌,
  inl, inr, refl, sym, subst, codes, any, str_eq, is_within, is_at_least, if_given, IfGiven,
  if_given_iff, Within, AtLeast, Within-iff, AtLeast-iff, arith,
}
use vfront.Requests.Json.{
  Float, Json, Members, null, text, object, get, IsFalsy, truthy_iff, is_literal_iff, is_null,
  is_literal, truthy,
}
use vfront.Requests.Checks.{
  messages, temperature, top_p, n, top_logprobs, tool_choice, reasoning_effort, max_output_tokens,
  max_tool_calls, effort, Verdict, accepted, check, check_iff, is_effort_name, is_reasoning_effort,
  OneOf, any-OneOf, both_iff, IsEffortName, is_effort_name_iff, is_between,
}

-- The fields of ChatCompletionRequest that the validator reads. `None` is `null` in a Json.
pub record ChatRequest (F : Float) : Type 0 where
  pub messages : List (Json F.Number)
  pub temperature : Option F.Number
  pub top_p : Option F.Number
  pub n : Option ℤ
  pub logprobs : Option Bool
  pub top_logprobs : Option ℤ
  pub tool_choice : Json F.Number
  pub reasoning_effort : Option Str

pub record ResponseRequest (F : Float) : Type 0 where
  pub temperature : Option F.Number
  pub top_p : Option F.Number
  pub max_output_tokens : Option ℤ
  pub top_logprobs : Option ℤ
  pub max_tool_calls : Option ℤ
  pub reasoning : Option (Members F.Number)

module _ (F : Float) where
  abbrev pub is_some_item : List (Json F.Number) → Bool
  is_some_item [] = false
  is_some_item (m ∷ l) = true

  abbrev pub is_true : Option Bool → Bool
  is_true none = false
  is_true (some b) = b

  unfoldable pub names_function : Json F.Number → Bool
  names_function (object fn) = truthy F (get fn (codes "name"))
  names_function _ = false

  -- `tool_choice`: one of three words, or an object that names a function
  unfoldable pub is_tool_choice : Json F.Number → Bool
  is_tool_choice (text s) = any (str_eq s) (codes "none" ∷ codes "auto" ∷ codes "required" ∷ [])
  is_tool_choice (object choice) =
      is_literal (codes "function") (get choice (codes "type"))
      && names_function (get choice (codes "function"))
  is_tool_choice _ = true

  unfoldable pub validate_chat_request : ChatRequest F → Verdict
  validate_chat_request r = check (is_some_item r.messages) messages (
      check (if_given (is_between F (pos 0) (pos 2)) r.temperature) temperature (
        check (if_given (is_between F (pos 0) (pos 1)) r.top_p) top_p (
          check (if_given (is_within 1 128) r.n) n (
            check (if_given (is_within 0 20) r.top_logprobs) top_logprobs (
              check (if_given (λ i. is_true r.logprobs) r.top_logprobs) top_logprobs (
                check (is_tool_choice r.tool_choice) tool_choice (
                  check (if_given is_effort_name r.reasoning_effort) reasoning_effort
                    accepted)))))))

  -- `reasoning.get("effort")`, if it is given and not None
  unfoldable pub is_effort : Members F.Number → Bool
  is_effort reasoning =
      let value = get reasoning (codes "effort") in
      elim (is_null value) [ true ↦ true | false ↦ is_reasoning_effort value ]

  unfoldable pub validate_responses_request : ResponseRequest F → Verdict
  validate_responses_request r =
      check (if_given (is_between F (pos 0) (pos 2)) r.temperature) temperature (
        check (if_given (is_between F (pos 0) (pos 1)) r.top_p) top_p (
          check (if_given (is_at_least 1) r.max_output_tokens) max_output_tokens (
            check (if_given (is_within 0 20) r.top_logprobs) top_logprobs (
              check (if_given (is_at_least 1) r.max_tool_calls) max_tool_calls
                (check (if_given is_effort r.reasoning) effort accepted)))))

  abbrev pub Between : ℕ → F.Number → Type 0
  Between hi x = (F.le (F.literal (pos 0)) x ≡ true) × (F.le x (F.literal (pos hi)) ≡ true)

  Between-iff : (hi : ℕ) (x : F.Number) → (is_between F (pos 0) (pos hi) x ≡ true) ↔ Between hi x
  unfolding is_between
  Between-iff hi x = ground arith

  -- An object whose name is not a false value.
  abbrev pub NamesFunction : Json F.Number → Type 0
  NamesFunction j = (fn : Members F.Number) × (j ≡ object fn) × ¬ IsFalsy F (get fn (codes "name"))

  -- A text or an object is admitted under a condition, and any other value as it is.
  abbrev pub IsToolChoice : Json F.Number → Type 0
  IsToolChoice (text s) = OneOf s (codes "none" ∷ codes "auto" ∷ codes "required" ∷ [])
  IsToolChoice (object choice) =
      (get choice (codes "type") ≡ text (codes "function"))
      × NamesFunction (get choice (codes "function"))
  IsToolChoice _ = Unit {0}

  -- The member `effort` is missing or null, or it names an effort.
  abbrev pub GivesEffort : Members F.Number → Type 0
  GivesEffort m =
      (get m (codes "effort") ≡ null)
      ⊎ ((s : Str) × (get m (codes "effort") ≡ text s) × IsEffortName s)

  given_text :
      (s : Str)
      → (◌≡◌ {A = Json F.Number} (text s) null)
        ⊎ ((t : Str) × (◌≡◌ {A = Json F.Number} (text s) (text t)) × IsEffortName t)
      → IsEffortName s
  given_text s (inl e) = absurd (cc)
  given_text s (inr (t, e, p)) = let same : s ≡ t = cc in subst IsEffortName (sym same) p

  is_effort_iff : (m : Members F.Number) → (is_effort m ≡ true) ↔ GivesEffort m
  unfolding is_effort is_reasoning_effort
  is_effort_iff m = by_value (get m (codes "effort"))
    where
      by_value :
          (j : Json F.Number)
          → (let given : Bool = elim (is_null j) [ true ↦ true | false ↦ is_reasoning_effort j ] in
                given)
              ≡ true
            ↔ ((j ≡ null) ⊎ ((s : Str) × (j ≡ text s) × IsEffortName s))
      by_value null = (λ h. inl refl, λ h. refl)
      by_value (text s) = (
        λ h. inr (s, refl, (is_effort_name_iff s).0 h),
        λ h. (is_effort_name_iff s).1 (given_text s h),
      )
      by_value j =
          (λ h. absurd (cc), λ h. elim h [ inl e ↦ absurd (cc) | inr (s, e, p) ↦ absurd (cc) ])

  names_function_iff : (j : Json F.Number) → (names_function j ≡ true) ↔ NamesFunction j
  unfolding names_function truthy
  names_function_iff (object fn) = (
    λ h. (fn, refl, (truthy_iff F (get fn (codes "name"))).0 h),
    λ h. (truthy_iff F (get fn (codes "name"))).1 (named h),
  )
    where
      named : NamesFunction (object fn) → ¬ IsFalsy F (get fn (codes "name"))
      named (fn', e, h) =
          let same : fn ≡ fn' = cc in subst (λ f. ¬ IsFalsy F (get f (codes "name"))) (sym same) h
  names_function_iff j = (λ h. absurd (cc), λ h. absurd (let (fn, e, p) = h in cc))

  is_tool_choice_iff : (j : Json F.Number) → (is_tool_choice j ≡ true) ↔ IsToolChoice j
  unfolding is_tool_choice
  is_tool_choice_iff (text s) = any-OneOf s (codes "none" ∷ codes "auto" ∷ codes "required" ∷ [])
  is_tool_choice_iff (object choice) =
      let kind = get choice (codes "type") in
      both_iff _ _ (is_literal_iff F (codes "function") kind)
        (names_function_iff (get choice (codes "function")))
  is_tool_choice_iff j = (λ h. tt, λ h. refl)

  -- A chat request is accepted exactly if it has messages, its temperature, `top_p`, `n` and
  -- `top_logprobs` are in their ranges where they are given, `logprobs` is set where `top_logprobs`
  -- is given, and its tool choice and its effort are admitted ones.
  pub validate_chat_request_iff :
      (r : ChatRequest F)
      → (validate_chat_request r ≡ accepted) ↔ (
          (r.messages ≢ [])
          × (IfGiven (Between 2) r.temperature
              × (IfGiven (Between 1) r.top_p
                  × (IfGiven (Within 1 128) r.n
                      × (IfGiven (Within 0 20) r.top_logprobs
                          × (IfGiven (λ i. r.logprobs ≡ some true) r.top_logprobs
                              × (IsToolChoice r.tool_choice
                                  × (IfGiven IsEffortName r.reasoning_effort × Unit {0}))))))))
  unfolding validate_chat_request
  validate_chat_request_iff r = check_iff _ _ _ (some_item_iff r.messages) (
      check_iff _ _ _ (if_given_iff _ _ (Between-iff 2) r.temperature) (
        check_iff _ _ _ (if_given_iff _ _ (Between-iff 1) r.top_p) (
          check_iff _ _ _ (if_given_iff _ _ (Within-iff 1 128) r.n) (
            check_iff _ _ _ (if_given_iff _ _ (Within-iff 0 20) r.top_logprobs) (
              check_iff _ _ _ (if_given_iff _ _ (λ i. is_true_iff r.logprobs) r.top_logprobs) (
                check_iff _ _ _ (is_tool_choice_iff r.tool_choice) (
                  check_iff _ _ _ (if_given_iff _ _ is_effort_name_iff r.reasoning_effort)
                    (λ h. tt, λ h. refl))))))))
    where
      some_item_iff : (l : List (Json F.Number)) → (is_some_item l ≡ true) ↔ (l ≢ [])
      some_item_iff [] = (λ h. absurd (cc), λ h. absurd (h refl))
      some_item_iff (m ∷ l) = (λ h e. cc, λ h. refl)

      is_true_iff : (o : Option Bool) → (is_true o ≡ true) ↔ (o ≡ some true)
      is_true_iff none = (λ h. cc, λ h. cc)
      is_true_iff (some b) = (λ h. cc, λ h. cc)

  -- A request for a response is accepted exactly if each number that it gives is in its range and
  -- its effort, where it gives one, is an admitted one.
  pub validate_responses_request_iff :
      (r : ResponseRequest F)
      → (validate_responses_request r ≡ accepted) ↔ (
          IfGiven (Between 2) r.temperature
          × (IfGiven (Between 1) r.top_p
              × (IfGiven (AtLeast 1) r.max_output_tokens
                  × (IfGiven (Within 0 20) r.top_logprobs
                      × (IfGiven (AtLeast 1) r.max_tool_calls
                          × (IfGiven GivesEffort r.reasoning × Unit {0}))))))
  unfolding validate_responses_request
  validate_responses_request_iff r =
      check_iff _ _ _ (if_given_iff _ _ (Between-iff 2) r.temperature) (
        check_iff _ _ _ (if_given_iff _ _ (Between-iff 1) r.top_p) (
          check_iff _ _ _ (if_given_iff _ _ (AtLeast-iff 1) r.max_output_tokens) (
            check_iff _ _ _ (if_given_iff _ _ (Within-iff 0 20) r.top_logprobs) (
              check_iff _ _ _ (if_given_iff _ _ (AtLeast-iff 1) r.max_tool_calls) (
                check_iff _ _ _ (if_given_iff _ _ is_effort_iff r.reasoning)
                  (λ h. tt, λ h. refl))))))
