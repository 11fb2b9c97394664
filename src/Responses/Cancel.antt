-- ===== src/Responses/Cancel.antt =====
-- What a cancellation that is granted comes to.
use vfront.Common.{
  ℕ, List, [], ◌∷◌, ◌++◌, Bool, true, false, not, Option, none, some, Result, ok, err, Exn, ◌≡◌,
  refl, sym, ap, ◌∙◌, inl, inr, Option-cases, all, any, is_some, subst, ok-injective, ◌&&◌,
}
use vfront.Jobs.Executions.{CancelUpdate}
use vfront.Responses.{
  Response, Effect, persist, delete_spec, request_runner_cancel, CancelAnswer, response, refusal,
  runs, granted, cancel_response,
}

unfoldable pub asks_runner : Effect → Bool
asks_runner request_runner_cancel = true
asks_runner _ = false

unfoldable pub deletes_spec : Effect → Bool
deletes_spec delete_spec = true
deletes_spec _ = false

-- The answer is what is stored, when a response is stored.
unfoldable pub Stores : Option Response → CancelAnswer → List Effect → Type 0
Stores none answer effects = effects ≡ []
Stores (some r) answer effects =
    (told : Response) × (rest : List Effect) × (answer ≡ response told)
    × (effects ≡ persist told ∷ rest)

granted_lem :
    (running : Bool) (stored : Option Response) (now : ℕ)
    → let (answer, effects) = granted running stored now in
      (before : List Effect) × (effects ≡ before ++ request_runner_cancel ∷ [])
      × (all (λ e. not (asks_runner e)) before ≡ true)
      × (any deletes_spec before ≡ (is_some stored && not running))
      × Stores stored answer before
unfolding granted asks_runner deletes_spec Stores
granted_lem true none now = ([], refl, refl, refl, refl)
granted_lem false none now = ([], refl, refl, refl, refl)
granted_lem true (some r) now = (persist _ ∷ [], refl, refl, refl, (_, [], refl, refl))
granted_lem false (some r) now =
    (persist _ ∷ delete_spec ∷ [], refl, refl, refl, (_, delete_spec ∷ [], refl, refl))

module _ {X : Type 0} where
  cancel_granted :
      (update : Option (CancelUpdate X)) (stored : Option Response) (now : ℕ)
      → refusal update stored ≡ none
      → let (answer, effects) = granted (runs update) stored now in
        ◌≡◌ {A = Result CancelAnswer × List Effect}
          (cancel_response update stored now)
          (ok answer, effects)
  unfolding cancel_response
  cancel_granted update stored now h = rw (h, cancel_response) refl

  cancel_refused :
      (update : Option (CancelUpdate X)) (stored : Option Response) (now : ℕ) (e : Exn)
      → refusal update stored ≡ some e
      → ◌≡◌ {A = Result CancelAnswer × List Effect} (cancel_response update stored now) (err e, [])
  unfolding cancel_response
  cancel_refused update stored now e h = rw (h, cancel_response) refl

  -- A cancellation that is granted asks the runner to cancel once, after all else. When a
  -- response is stored, it answers with what it stores first; the spec of the job is deleted if
  -- and only if a response is stored and the job does not run.
  pub cancel_response_lem :
      (update : Option (CancelUpdate X)) (stored : Option Response) (now : ℕ)
      (answer : CancelAnswer)
      → (cancel_response update stored now).0 ≡ ok answer
      → (before : List Effect) × ((cancel_response update stored now).1
          ≡ before ++ request_runner_cancel ∷ [])
        × (all (λ e. not (asks_runner e)) before ≡ true)
        × (any deletes_spec before ≡ (is_some stored && not (runs update)))
        × Stores stored answer before
  cancel_response_lem update stored now answer h = elim (Option-cases (refusal update stored)) [
    | inl none_refused ↦
        let (before, all_of, once, spec, told) = granted_lem (runs update) stored now in
        let answers : ok (granted (runs update) stored now).0 ≡ ok answer =
          sym (ap (λ t. t.0) (cancel_granted update stored now none_refused)) ∙ h in
        (
          before,
          ap (λ t. t.1) (cancel_granted update stored now none_refused) ∙ all_of,
          once,
          spec,
          subst (λ a. Stores stored a before) (ok-injective answers) told,
        )
    | inr (e, refused) ↦
        let answers : err e ≡ ok answer =
          sym (ap (λ t. t.0) (cancel_refused update stored now e refused)) ∙ h in
        absurd (cc answers)
  ]
