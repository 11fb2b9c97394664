-- ===== src/Requests/Completions.antt =====
-- `validate_completion_request`, `validate_completion_prompt_shape` and, of
-- api/v1/helper/completion_execution.py, `validate_completion_best_of`.
pub mod Accepted
use vfront.Common.{
  ℕ, zero, suc, ◌≤◌, ℤ, pos, negsuc, Bool, true, false, not, ◌&&◌, ◌||◌, Option, none, some, ◌≡◌,
  ◌≢◌, ◌↔◌, ◌⊎◌, inl, inr, refl, ltb, leb, ◌==◌, is_within, is_at_least, if_given, IfGiven,
  if_given_iff, Within, AtLeast, Within-iff, AtLeast-iff, if◌then◌else◌, arith, Bool-cases,
}
use vfront.Requests.Json.{
  Float, Json, Items, null, text, array, nothing, item, is_int, is_text, all_items,
}
use vfront.Requests.Checks.{
  Field, prompt, temperature, top_p, n, max_tokens, logprobs, presence_penalty, frequency_penalty,
  best_of, stream, Verdict, accepted, rejected, check, check_iff, is_between,
}

pub record CompletionRequest (F : Float) : Type 0 where
  pub prompt : Json F.Number
  pub temperature : Option F.Number
  pub top_p : Option F.Number
  pub n : Option ℤ
  pub max_tokens : Option ℤ
  pub logprobs : Option ℤ
  pub presence_penalty : Option F.Number
  pub frequency_penalty : Option F.Number
  pub best_of : Option ℤ
  pub stream : Option Bool

-- The flags of compat/capabilities.py that the validator reads.
pub record ServerCapabilities : Type 0 where
  pub supports_completion_multi_prompt : Bool
  pub supports_completion_stream_multi_prompt : Bool

abbrev pub default_capabilities : ServerCapabilities
default_capabilities = record {
  supports_completion_multi_prompt = true;
  supports_completion_stream_multi_prompt = false;
}

-- `request.n or 1`
abbrev pub n_or_one : Option ℤ → ℤ
n_or_one none = pos 1
n_or_one (some (pos zero)) = pos 1
n_or_one (some i) = i

abbrev pub is_below : ℤ → ℤ → Bool
is_below (pos a) (pos b) = ltb a b
is_below (negsuc a) (pos b) = true
is_below (pos a) (negsuc b) = false
is_below (negsuc a) (negsuc b) = ltb b a

abbrev pub is_set : Option Bool → Bool
is_set none = false
is_set (some b) = b

module _ (F : Float) where
  abbrev pub is_int_array : Json F.Number → Bool
  is_int_array (array tokens) = all_items is_int tokens
  is_int_array _ = false

  unfoldable pub validate_completion_prompt_shape : Json F.Number → Verdict
  validate_completion_prompt_shape null = accepted
  validate_completion_prompt_shape (text s) = accepted
  validate_completion_prompt_shape (array (item x rest)) =
      if all_items is_int (item x rest)
      then accepted
      else if all_items is_text (item x rest)
      then accepted
      else if all_items is_int_array (item x rest)
      then accepted
      else rejected prompt
  validate_completion_prompt_shape _ = rejected prompt

  -- the checks on a `best_of` that is given
  unfoldable pub best_of_given : CompletionRequest F → ℤ → Verdict
  best_of_given r (negsuc i) = rejected best_of
  best_of_given r (pos zero) = accepted
  best_of_given r (pos (suc i)) =
      if ltb 20 (suc i)
      then rejected best_of
      else if is_set r.stream && ltb 1 (suc i)
      then rejected best_of
      else if is_below (pos (suc i)) (n_or_one r.n)
      then rejected best_of
      else accepted

  unfoldable pub validate_completion_best_of : CompletionRequest F → Verdict
  validate_completion_best_of r = elim r.best_of [ none ↦ accepted | some i ↦ best_of_given r i ]

  -- A validator that is called: what it raises ends the caller too.
  abbrev pub then_check : Verdict → Verdict → Verdict
  then_check accepted rest = rest
  then_check (rejected field) rest = rejected field

  unfoldable pub check_prompts : ServerCapabilities → CompletionRequest F → ℕ → Verdict
  check_prompts caps r num_prompts =
      check (caps.supports_completion_multi_prompt || leb num_prompts 1) prompt (
        check
          (caps.supports_completion_stream_multi_prompt
            || not (is_set r.stream)
            || leb num_prompts 1)
          stream accepted)

  unfoldable pub validate_completion_request :
      ServerCapabilities → CompletionRequest F → ℕ → Verdict
  validate_completion_request caps r num_prompts =
      then_check (validate_completion_prompt_shape r.prompt) (
        check (if_given (is_between F (pos 0) (pos 2)) r.temperature) temperature (
          check (if_given (is_between F (pos 0) (pos 1)) r.top_p) top_p (
            check (if_given (is_within 1 128) r.n) n (
              check (if_given (is_at_least 0) r.max_tokens) max_tokens (
                check (if_given (is_within 0 5) r.logprobs) logprobs (
                  check (if_given (is_between F (negsuc 1) (pos 2)) r.presence_penalty)
                    presence_penalty
                    (check (if_given (is_between F (negsuc 1) (pos 2)) r.frequency_penalty)
                      frequency_penalty
                      (then_check (validate_completion_best_of r)
                        (check_prompts caps r num_prompts)))))))))
