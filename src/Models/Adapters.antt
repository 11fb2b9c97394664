-- ===== src/Models/Adapters.antt =====
-- engine/service/lora_manager.py. `add_lora` and `remove_lora` of the engine are awaited: what they
-- answer is an argument, and the steps before and after the wait are functions of their own, since
-- other calls may run in between.
pub mod Ids
use vfront.Common.{
  ℕ, suc, ◌+◌, max, Str, List, [], ◌∷◌, Bool, true, false, not, Option, none, some, Result, ok, err,
  Exn, value_error, runtime_error, ◌>>=◌, str_eq, if◌then◌else◌,
}

-- vLLM's LoRARequest
pub record LoraRequest : Type 0 where
  pub lora_name : Str
  pub lora_int_id : ℕ
  pub lora_path : Str

-- A `dict` from names, in order of insertion.
abbrev pub Requests : Type 0
Requests = List (Str × LoraRequest)

unfoldable pub get : Requests → Str → Option LoraRequest
get [] name = none
get ((n, r) ∷ l) name = if str_eq n name then some r else get l name

unfoldable pub put : Requests → Str → LoraRequest → Requests
put [] name new = (name, new) ∷ []
put ((n, r) ∷ l) name new =
    let rest = put l name new in if str_eq n name then (n, new) ∷ l else (n, r) ∷ rest

unfoldable pub pop : Requests → Str → Requests
pop [] name = []
pop ((n, r) ∷ l) name = let rest = pop l name in if str_eq n name then l else (n, r) ∷ rest

-- One runtime model, and the requests that the manager shows as the primary ones.
pub record Runtime : Type 0 where
  pub runtime_model : Str
  pub lora_requests : Requests
  pub primary_model : Str
  pub primary_requests : Requests

unfoldable pub highest_id : Requests → ℕ
highest_id [] = 0
highest_id ((n, r) ∷ l) = max r.lora_int_id (highest_id l)

unfoldable pub next_lora_int_id : Runtime → ℕ
next_lora_int_id s = elim s.lora_requests [ [] ↦ 1 | p ∷ l ↦ highest_id (p ∷ l) + 1 ]

-- `runtime.lora_requests` changes, and with it the primary requests of a primary runtime.
unfoldable pub share : Runtime → Requests → Runtime
share s requests = record s {
  lora_requests = requests;
  primary_requests =
      if str_eq s.runtime_model s.primary_model then requests else s.primary_requests;
}

-- `load_lora` up to the call of the engine: nothing, if the adapter is loaded already
unfoldable pub begin_load : Runtime → Str → Str → Result (Option LoraRequest)
begin_load s name path = elim (get s.lora_requests name) [
  | some existing ↦ if str_eq existing.lora_path path then ok none else err value_error
  | none ↦
      ok (some (record { lora_name = name; lora_int_id = next_lora_int_id s; lora_path = path }))
]

-- ... and behind it.
unfoldable pub finish_load : Runtime → Option LoraRequest → Bool → Result Runtime
finish_load s none loaded = ok s
finish_load s (some request) loaded =
    if loaded
    then ok (share s (put s.lora_requests request.lora_name request))
    else err runtime_error

-- The runtime that `load_lora` goes on with: it awaits the engine if there is a request, and `later` is what
-- other calls have made of the runtime then.
abbrev awaited : Runtime → Runtime → Option LoraRequest → Runtime
awaited s later none = s
awaited s later (some request) = later

unfoldable pub load_lora : Runtime → Runtime → Str → Str → Bool → Result Runtime
load_lora s later name path loaded = do
  request ← begin_load s name path
  finish_load (awaited s later request) request loaded

unfoldable pub unload_lora : Runtime → Str → Bool → Result Runtime
unload_lora s name removed = elim (get s.lora_requests name) [
  | none ↦ err value_error
  | some request ↦ if removed then ok (share s (pop s.lora_requests name)) else err runtime_error
]

unfoldable pub resolve_lora : Runtime → Str → Result LoraRequest
resolve_lora s name = elim (get s.primary_requests name) [ none ↦ err value_error | some r ↦ ok r ]

unfoldable pub resolve_lora_for_runtime : Runtime → Option Str → Result (Option LoraRequest)
resolve_lora_for_runtime s none = ok none
resolve_lora_for_runtime s (some name) = elim (get s.lora_requests name) [
  | none ↦ err value_error
  | some r ↦ ok (some r)
]
