-- ===== src/Tests/EngineRuns.antt =====
-- The theorem on the clients of the router, at a concrete backend.
use vfront.Common.{ℕ, Str, [], false, Option, none, ok, ◌≡◌, refl, codes, str_eq}
use vfront.Models.Registry.{ResolvedModelTarget}
use vfront.Models.Engines.{Routing, Router, client_for_target, put_at}
use vfront.Models.Engines.Cached.{client_is_kept}

abbrev routing : Routing
routing = record { is_local = false; has_backend = λ b. str_eq b (codes "gpu") }

abbrev target : Str → ResolvedModelTarget
target name = record {
  requested_model = name;
  public_name = name;
  backend = codes "gpu";
  runtime_model = codes "llama";
  adapter = none;
  tool_parser = none;
}

abbrev router : (Str → Option ℕ) → Router ℕ
router clients = record {
  backend = none;
  registry = record { base_models = []; lora_models = [] };
  remote_clients = clients;
}

first_client :
    client_for_target routing (router (λ b. none)) (target (codes "one")) 7
    ≡ (ok 7, router (put_at (λ b. none) (codes "gpu") 7))
unfolding client_for_target str_eq
first_client = refl

client_is_kept_example :
    client_for_target routing (router (put_at (λ b. none) (codes "gpu") 7)) (target (codes "two")) 8
    ≡ (ok 7, router (put_at (λ b. none) (codes "gpu") 7))
client_is_kept_example =
    client_is_kept routing (router (λ b. none)) (router (put_at (λ b. none) (codes "gpu") 7))
      (target (codes "one")) (target (codes "two")) 7 8 7 refl first_client refl
