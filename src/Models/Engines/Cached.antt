-- ===== src/Models/Engines/Cached.antt =====
-- What the caches keep.
use vfront.Common.{
  ℕ, ◌+◌, Str, true, false, some, Result, ok, err, ◌≡◌, str_eq_self, inl, inr, Bool-cases,
  Option-cases, ap, sym, ◌∙◌, ok-injective, ltb, if◌then◌else◌, arith,
}
use vfront.Models.Registry.{ResolvedModelTarget}
use vfront.Models.Engines.{
  put_at, Routing, Router, kept_client, client_for_target, EngineHealth, HealthCache, get_health,
}

kept_again :
    {Client : Type 0} (routing : Routing) (s s' : Router Client) (backend : Str)
    (created created' client : Client)
    → kept_client routing s backend created (s.remote_clients backend) ≡ (ok client, s')
    → kept_client routing s' backend created' (s'.remote_clients backend) ≡ (ok client, s')
kept_again {Client} routing s s' backend created created' client h =
    elim (Option-cases (s.remote_clients backend)) [
      | inr (c, there) ↦ ground (arith, h, there)
      | inl missing ↦
          let now : (
            ok created,
            record s { remote_clients = put_at s.remote_clients backend created },
          )
              ≡ (ok client, s') =
            rw missing at h in
          let kept : s' ≡ record s { remote_clients = put_at s.remote_clients backend created } =
            sym (ap (λ (p : Result Client × Router Client). p.1) now) in
          let same : created ≡ client =
            ok-injective (ap (λ (p : Result Client × Router Client). p.0) now) in
          let there : s'.remote_clients backend ≡ some client =
            ap (λ (r : Router Client). r.remote_clients backend) kept
            ∙ rw (str_eq_self backend) (ap some same) in
          rw there
    ]

-- With remote engines, once a call has returned a client for a backend, the next call for a target
-- on that backend, with the same settings, returns the same client and changes nothing.
pub client_is_kept :
    {Client : Type 0} (routing : Routing) (s s' : Router Client)
    (target target' : ResolvedModelTarget) (created created' client : Client)
    → routing.is_local ≡ false
    → client_for_target routing s target created ≡ (ok client, s')
    → target'.backend ≡ target.backend
    → client_for_target routing s' target' created' ≡ (ok client, s')
unfolding client_for_target
client_is_kept routing s s' target target' created created' client remote h same =
    elim (Bool-cases (routing.has_backend target.backend)) [
      | inr unknown ↦ absurd (cc (rw (remote, unknown, client_for_target) at h))
      | inl known ↦
          let now : kept_client routing s target.backend created (s.remote_clients target.backend)
              ≡ (ok client, s') =
            rw (remote, known, client_for_target) at h in
          rw (remote, same, known, client_for_target)
            (kept_again routing s s' target.backend created created' client now)
    ]

-- After an engine has answered at one time, a call that does not ask for a refresh gives that answer
-- back before the lifetime is over, without asking the engine, also if the engine has failed since.
-- From then on it gives what the engine answers.
pub get_health-get_health :
    (ttl : ℕ) (cache : HealthCache) (backend : Str) (now later : ℕ) (first : EngineHealth)
    (second : Result EngineHealth)
    → let cache' = (get_health ttl cache backend true now (ok first)).1 in
      (get_health ttl cache' backend false later second).0
      ≡ (if ltb later (now + ttl) then ok first else second)
unfolding get_health
get_health-get_health ttl cache backend now later first (ok answer) =
    ground (arith, str_eq_self backend)
get_health-get_health ttl cache backend now later first (err e) =
    ground (arith, str_eq_self backend)
