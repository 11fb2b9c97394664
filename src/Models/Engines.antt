-- ===== src/Models/Engines.antt =====
-- frontend/service/engine/router.py and frontend/service/capabilities/service.py: the clients of
-- the engines, and what is known of their health. A `dict` is a function from its keys. What the
-- client factory would create, and what an engine would answer, are arguments.
pub mod Cached
use vfront.Common.{
  ℕ, ◌+◌, Str, Bool, true, false, not, ◌&&◌, Option, none, some, Result, ok, err, Exn, value_error,
  runtime_error, invalid_request, not_found, str_eq, ltb, if◌then◌else◌,
}
use vfront.Models.Registry.{ModelRegistry, ResolvedModelTarget, resolve}

abbrev pub put_at : {A : Type 0} → (Str → Option A) → Str → A → Str → Option A
put_at table key a key' = if str_eq key key' then some a else table key'

-- `frontend.routing`: where the engines are, and which backends are configured
pub record Routing : Type 0 where
  pub is_local : Bool
  pub has_backend : Str → Bool

module _ (Client : Type 0) where
  pub record Router : Type 0 where
    -- the clients of the local backend for its runtime models, if there is one
    pub backend : Option (Str → Result Client)
    pub registry : ModelRegistry
    pub remote_clients : Str → Option Client

module _ {Client : Type 0} (routing : Routing) where
  unfoldable pub resolve_target : Router Client → Str → Result ResolvedModelTarget
  resolve_target s model = elim (resolve s.registry model) [ none ↦ err not_found | some t ↦ ok t ]

  abbrev pub local_client : Option (Str → Result Client) → Str → Result Client
  local_client none model = err runtime_error
  local_client (some for_runtime_model) model = for_runtime_model model

  -- the client that is kept, or the one that the factory creates
  abbrev pub kept_client :
      Router Client → Str → Client → Option Client → Result Client × Router Client
  kept_client s backend created none =
      (ok created, record s { remote_clients = put_at s.remote_clients backend created })
  kept_client s backend created (some client) = (ok client, s)

  -- `_client_for_target`
  unfoldable pub client_for_target :
      Router Client → ResolvedModelTarget → Client → Result Client × Router Client
  client_for_target s target created =
      if routing.is_local
      then (local_client s.backend target.runtime_model, s)
      else if routing.has_backend target.backend
      then kept_client s target.backend created (s.remote_clients target.backend)
      else (err not_found, s)

-- shared/engine/types.py
pub record EngineHealth : Type 0 where
  pub ready : Bool
  pub runtime_model : Str
  pub max_model_len : ℕ
  pub weights : Option Str
  pub tokenizer_id : Option Str
  pub quantization : Option Str
  pub dtype : Option Str
  pub tensor_parallel_size : Option ℕ

-- `_CachedHealth`
pub record CachedHealth : Type 0 where
  pub health : EngineHealth
  pub expires_at : ℕ

abbrev pub HealthCache : Type 0
HealthCache = Str → Option CachedHealth

abbrev pub is_fresh : Option CachedHealth → ℕ → Bool
is_fresh none now = false
is_fresh (some c) now = ltb now c.expires_at

abbrev pub health_or : Option CachedHealth → EngineHealth → EngineHealth
health_or none answer = answer
health_or (some c) answer = c.health

-- `get_health`, with the clock's time and the engine's answer, which is an error if it raises
unfoldable pub get_health :
    ℕ → HealthCache → Str → Bool → ℕ → Result EngineHealth → Result EngineHealth × HealthCache
get_health ttl cache backend refresh now (ok answer) =
    if not refresh && is_fresh (cache backend) now
    then (ok (health_or (cache backend) answer), cache)
    else (ok answer, put_at cache backend (record { health = answer; expires_at = now + ttl }))
get_health ttl cache backend refresh now (err e) = elim (cache backend) [
  | none ↦ (err e, cache)
  | some c ↦ if not refresh && ltb now c.expires_at then (ok c.health, cache) else (err e, cache)
]

unfoldable pub validate_backend_identity : ResolvedModelTarget → EngineHealth → Result (Unit {0})
validate_backend_identity target health =
    if str_eq health.runtime_model target.runtime_model then ok tt else err invalid_request
