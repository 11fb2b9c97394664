-- ===== src/Tests/OutputRuns.antt =====
-- The state of a stream at concrete texts, with the blank as the one white character.
use vfront.Common.{
  ℕ, Str, List, [], ◌∷◌, Bool, true, Option, none, some, ◌≡◌, refl, codes, ◌==◌, starts_with,
}
use vfront.Output.{
  new_state, lstrip, looks_like_tool_call_prefix, decided, update, text_output, tool_output,
  parse_tool_calls_if_present, normalize_assistant_output, finalize,
}
use vfront.Output.Streamed.{follow}

abbrev pub is_space : ℕ → Bool
is_space c = c == 32

abbrev no_calls : Str → Option (List ℕ)
no_calls s = none

abbrev chunks : List Str
chunks = codes " " ∷ codes " hi" ∷ codes " you" ∷ []

sent_text : (follow is_space (new_state true) chunks).1 ≡ codes " hi you"
unfolding follow new_state update decided looks_like_tool_call_prefix lstrip starts_with
sent_text = refl

ends_as_text :
    (finalize is_space no_calls (follow is_space (new_state true) chunks).0).0
    ≡ text_output (codes "  hi you")
unfolding follow new_state update decided looks_like_tool_call_prefix lstrip starts_with finalize
    normalize_assistant_output parse_tool_calls_if_present
ends_as_text = refl

abbrev one_call : Str → Option (List ℕ)
one_call s = some (1 ∷ [])

abbrev split_chunks : List Str
split_chunks = codes "<tool" ∷ codes "_call>" ∷ []

-- The marker of a tool call that comes in two chunks is streamed as text, and then read as a call.
split_marker :
    ((follow is_space (new_state true) split_chunks).1 ≡ codes "<tool_call>")
    × ((finalize is_space one_call (follow is_space (new_state true) split_chunks).0).0
        ≡ tool_output (1 ∷ []))
unfolding follow new_state update decided looks_like_tool_call_prefix lstrip starts_with finalize
    normalize_assistant_output parse_tool_calls_if_present
split_marker = (refl, refl)
