-- ===== src/Output.antt =====
-- adapter/assistant_output.py: the text of an assistant while it streams, and what it becomes. A
-- text is its code points here. Which of them are white, and what `build_tool_calls_from_text`
-- reads in a text, are parameters.
pub mod Streamed
use vfront.Common.{
  ℕ, ◌-◌, Str, List, [], ◌∷◌, ◌++◌, Bool, true, false, not, ◌&&◌, ◌||◌, Option, none, some, codes,
  starts_with, length, drop, all, if◌then◌else◌,
}

-- AssistantStreamKind
pub data StreamKind : Type 0 where
  undecided as_text as_tool_calls : StreamKind

pub record StreamState : Type 0 where
  pub has_tool_definitions : Bool
  pub kind : StreamKind
  pub text : Str
  pub streamed_text : Str
  pub finish_reason : Option Str

-- AssistantOutput
pub data AssistantOutput (Call : Type 0) : Type 0 where
  text_output : Str → AssistantOutput Call
  tool_output : List Call → AssistantOutput Call

abbrev pub is_empty : Str → Bool
is_empty [] = true
is_empty (c ∷ s) = false

abbrev pub is_undecided : StreamKind → Bool
is_undecided undecided = true
is_undecided _ = false

abbrev pub is_text : StreamKind → Bool
is_text as_text = true
is_text _ = false

unfoldable pub new_state : Bool → StreamState
new_state has = record {
  has_tool_definitions = has;
  kind = undecided;
  text = [];
  streamed_text = [];
  finish_reason = none;
}

abbrev pub or_else : Option Str → Option Str → Option Str
or_else none old = old
or_else (some reason) old = some reason

module _ (is_space : ℕ → Bool) where
  -- `not text.strip()`
  abbrev pub is_blank : Str → Bool
  is_blank s = all is_space s

  unfoldable pub lstrip : Str → Str
  lstrip [] = []
  lstrip (c ∷ s) = let rest = lstrip s in if is_space c then rest else c ∷ s

  unfoldable pub looks_like_tool_call_prefix : Str → Bool
  looks_like_tool_call_prefix s =
      starts_with (codes "[") (lstrip s) || starts_with (codes "<tool_call>") (lstrip s)

  -- The kind that `update` sets.
  unfoldable pub decided : StreamState → Str → StreamKind
  decided s new_text =
      if is_undecided s.kind && not (is_blank new_text)
      then (if s.has_tool_definitions && looks_like_tool_call_prefix new_text
          then as_tool_calls
          else as_text)
      else s.kind

  unfoldable pub update : StreamState → Str → Option Str → StreamState × Option Str
  update s new_text finish_reason =
      let delta_text = drop (length s.text) new_text in
      let next = record s {
        text = new_text;
        kind = decided s new_text;
        finish_reason = or_else finish_reason s.finish_reason;
      } in
      if not (is_empty delta_text) && is_text next.kind
      then (record next { streamed_text = s.streamed_text ++ delta_text }, some delta_text)
      else (next, none)

  module _ {Call : Type 0} (build_tool_calls_from_text : Str → Option (List Call)) where
    unfoldable pub parse_tool_calls_if_present : Str → Option (List Call)
    parse_tool_calls_if_present s =
        if looks_like_tool_call_prefix s then build_tool_calls_from_text s else none

    -- an empty list of calls does not count
    abbrev pub output_of : Str → Option (List Call) → AssistantOutput Call
    output_of s none = text_output s
    output_of s (some []) = text_output s
    output_of s (some (c ∷ calls)) = tool_output (c ∷ calls)

    unfoldable pub normalize_assistant_output : Str → Bool → AssistantOutput Call
    normalize_assistant_output s has_tool_definitions =
        if has_tool_definitions then output_of s (parse_tool_calls_if_present s) else text_output s

    -- The text that `finalize` gives out late.
    unfoldable pub deferred : AssistantOutput Call → Str → Option Str
    deferred (text_output s) streamed =
        if not (is_empty s) && is_empty streamed then some s else none
    deferred (tool_output calls) streamed = none

    unfoldable pub finalize : StreamState → AssistantOutput Call × Option Str
    finalize s =
        let normalized = normalize_assistant_output s.text s.has_tool_definitions in
        (normalized, deferred normalized s.streamed_text)
