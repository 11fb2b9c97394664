-- ===== src/Tests/RequestRuns.antt =====
-- The theorems on the validators, with numbers counted in whole units for floats.
use vfront.Common.{
  ℤ, pos, negsuc, Str, [], ◌∷◌, Bool, true, false, Option, none, some, ◌≡◌, refl, codes, leb,
  IfGiven, Within, AtLeast, ◌==◌, str_eq,
}
use vfront.Requests.Json.{Float, text, integer, array, nothing, item, end, member, get, all_items}
use vfront.Requests.Checks.{
  accepted, rejected, is_between, is_effort_name, is_reasoning_effort, n, best_of, effort,
}
use vfront.Requests.Chat.{
  ChatRequest, ResponseRequest, is_tool_choice, is_effort, validate_chat_request,
  validate_responses_request, validate_chat_request_iff, validate_responses_request_iff,
}
use vfront.Requests.Completions.{
  CompletionRequest, default_capabilities, validate_completion_prompt_shape, best_of_given,
  validate_completion_best_of, check_prompts, validate_completion_request,
}
use vfront.Requests.Completions.Accepted.{BestOf, validate_completion_request_iff}

abbrev le : ℤ → ℤ → Bool
le (pos a) (pos b) = leb a b
le (negsuc a) (pos b) = true
le (pos a) (negsuc b) = false
le (negsuc a) (negsuc b) = leb b a

abbrev is_zero : ℤ → Bool
is_zero (pos a) = a == 0
is_zero (negsuc a) = false

abbrev units : Float
units = record { Number = ℤ; le = le; is_zero = is_zero; literal = λ i. i }

abbrev chat : Option ℤ → ChatRequest units
chat count = record {
  messages = text (codes "hello") ∷ [];
  temperature = some (pos 1);
  top_p = none;
  n = count;
  logprobs = some true;
  top_logprobs = some (pos 20);
  tool_choice = text (codes "auto");
  reasoning_effort = some (codes "high");
}

chat_accepted : validate_chat_request units (chat (some (pos 128))) ≡ accepted
unfolding validate_chat_request is_between is_tool_choice is_effort_name str_eq
chat_accepted = refl

too_many : validate_chat_request units (chat (some (pos 129))) ≡ rejected n
unfolding validate_chat_request is_between is_tool_choice is_effort_name str_eq
too_many = refl

validate_chat_request_iff_example : IfGiven (Within 1 128) (some (pos 128))
validate_chat_request_iff_example =
    ((validate_chat_request_iff units (chat (some (pos 128)))).0 chat_accepted).1.1.1.0

abbrev reasoning : Str → ResponseRequest units
reasoning level = record {
  temperature = none;
  top_p = some (pos 1);
  max_output_tokens = some (pos 1);
  top_logprobs = none;
  max_tool_calls = none;
  reasoning = some (member (codes "effort") (text level) end);
}

reasoning_accepted : validate_responses_request units (reasoning (codes "low")) ≡ accepted
unfolding validate_responses_request is_between is_effort get is_reasoning_effort is_effort_name
    str_eq
reasoning_accepted = refl

no_effort : validate_responses_request units (reasoning (codes "huge")) ≡ rejected effort
unfolding validate_responses_request is_between is_effort get is_reasoning_effort is_effort_name
    str_eq
no_effort = refl

validate_responses_request_iff_example : IfGiven (AtLeast 1) (some (pos 1))
validate_responses_request_iff_example =
    ((validate_responses_request_iff units (reasoning (codes "low"))).0 reasoning_accepted).1.1.0

abbrev streamed : ℤ → CompletionRequest units
streamed best = record {
  prompt = array (item (integer (pos 5)) (item (integer (pos 7)) nothing));
  temperature = none;
  top_p = none;
  n = some (pos 1);
  max_tokens = some (pos 0);
  logprobs = none;
  presence_penalty = some (negsuc 1);
  frequency_penalty = none;
  best_of = some best;
  stream = some true;
}

streamed_accepted :
    validate_completion_request units default_capabilities (streamed (pos 1)) 1 ≡ accepted
unfolding validate_completion_request validate_completion_prompt_shape all_items
    validate_completion_best_of best_of_given check_prompts is_between
streamed_accepted = refl

streamed_twice :
    validate_completion_request units default_capabilities (streamed (pos 2)) 1 ≡ rejected best_of
unfolding validate_completion_request validate_completion_prompt_shape all_items
    validate_completion_best_of best_of_given check_prompts is_between
streamed_twice = refl

validate_completion_request_iff_example : IfGiven (BestOf units (streamed (pos 1))) (some (pos 1))
validate_completion_request_iff_example =
    ((validate_completion_request_iff units default_capabilities (streamed (pos 1)) 1).0
      streamed_accepted).1.1.1.1.1.1.1.1.0
