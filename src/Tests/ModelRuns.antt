-- ===== src/Tests/ModelRuns.antt =====
-- The theorems on models and adapters, at concrete ones.
use vfront.Common.{
  Str, [], ◌∷◌, ◌++◌, true, Option, none, some, ok, ◌≡◌, ◌≢◌, refl, codes, str_eq, arith,
}
use vfront.Models.Registry.{RoutingModel, from_settings, resolve}
use vfront.Models.Registry.Resolve.{declared, resolve-from_settings}
use vfront.Models.Adapters.{
  LoraRequest, Requests, Runtime, get, put, next_lora_int_id, share, begin_load, finish_load,
  load_lora,
}
use vfront.Models.Adapters.Ids.{IsDistinct, load_lora_lem, interleaved_loads_share_id}

abbrev model : Str → Option Str → RoutingModel
model name adapter = record {
  name = name;
  backend = codes "local";
  runtime_model = codes "llama";
  adapter = adapter;
  capabilities = codes "text" ∷ [];
  tool_parser = none;
}

abbrev one : RoutingModel
one = model (codes "one") none

abbrev two : RoutingModel
two = model (codes "two") (some (codes "tuned"))

resolve-from_settings_example :
    resolve (from_settings (one ∷ two ∷ [])) (codes "two") ≡ some (declared two)
resolve-from_settings_example = resolve-from_settings (one ∷ []) [] two (unfold str_eq in refl) refl

abbrev bare : Runtime
bare = record {
  runtime_model = codes "llama";
  lora_requests = [];
  primary_model = codes "llama";
  primary_requests = [];
}

abbrev request : Str → LoraRequest
request name = record { lora_name = name; lora_int_id = 1; lora_path = codes "/" ++ name }

abbrev with_requests : Requests → Runtime
with_requests l = record bare { lora_requests = l; primary_requests = l }

load_a :
    load_lora bare bare (codes "a") (codes "/a") true
    ≡ ok (with_requests ((codes "a", request (codes "a")) ∷ []))
unfolding load_lora begin_load finish_load get put next_lora_int_id share str_eq
load_a = refl

no_requests : IsDistinct []
unfolding get
no_requests n m r r' h h' same = cc

load_lora_lem_example :
    ((r : LoraRequest) × (get ((codes "a", request (codes "a")) ∷ []) (codes "a") ≡ some r)
      × (r.lora_path ≡ codes "/a"))
    × IsDistinct ((codes "a", request (codes "a")) ∷ [])
load_lora_lem_example =
    load_lora_lem bare bare (codes "a") (codes "/a") true load_a (λ n r h. h) no_requests

none_loaded : (name : Str) → get bare.lora_requests name ≡ none
unfolding get
none_loaded name = refl

begin_a : begin_load bare (codes "a") (codes "/a") ≡ ok (some (request (codes "a")))
unfolding begin_load get next_lora_int_id
begin_a = refl

begin_b : begin_load bare (codes "b") (codes "/b") ≡ ok (some (request (codes "b")))
unfolding begin_load get next_lora_int_id
begin_b = refl

abbrev with_a : Runtime
with_a = with_requests ((codes "a", request (codes "a")) ∷ [])

abbrev with_both : Runtime
with_both = with_requests ((codes "a", request (codes "a")) ∷ (codes "b", request (codes "b")) ∷ [])

finish_a : finish_load bare (some (request (codes "a"))) true ≡ ok with_a
unfolding finish_load share put str_eq
finish_a = refl

finish_b : finish_load with_a (some (request (codes "b"))) true ≡ ok with_both
unfolding finish_load share put str_eq
finish_b = refl

apart : codes "a" ≢ codes "b"
apart e = absurd (ground arith)

interleaved_loads_share_id_example :
    (x : LoraRequest) × (y : LoraRequest) × (get with_both.lora_requests (codes "a") ≡ some x)
    × (get with_both.lora_requests (codes "b") ≡ some y)
    × (x.lora_int_id ≡ y.lora_int_id)
interleaved_loads_share_id_example =
    interleaved_loads_share_id bare (codes "a") (codes "b") (codes "/a") (codes "/b")
      (none_loaded (codes "a")) (none_loaded (codes "b")) apart begin_a begin_b finish_a finish_b
