-- ===== src/Requests/Checks.antt =====
-- What a validator of compat/validators.py answers, and the checks that several of them make.
use vfront.Common.{
  ℤ, Str, List, [], ◌∷◌, Bool, true, false, ◌&&◌, ◌≡◌, ◌↔◌, ◌⊎◌, refl, codes, any, str_eq,
  str_eq_iff, arith,
}
use vfront.Requests.Json.{Float, Json, text}

-- `param` of the InvalidRequestError
pub data Field : Type 0 where
  messages temperature top_p n top_logprobs tool_choice reasoning_effort : Field
  max_output_tokens max_tool_calls effort : Field
  prompt max_tokens logprobs presence_penalty frequency_penalty best_of stream : Field

pub data Verdict : Type 0 where
  accepted : Verdict
  rejected : Field → Verdict

-- `if not test: raise InvalidRequestError(...)`, and the checks behind it
abbrev pub check : Bool → Field → Verdict → Verdict
check true field rest = rest
check false field rest = rejected field

-- One check after another accepts exactly if both do.
pub check_iff :
    {P Q : Type 0} (test : Bool) (field : Field) (rest : Verdict)
    → (test ≡ true) ↔ P
    → (rest ≡ accepted) ↔ Q
    → (check test field rest ≡ accepted) ↔ (P × Q)
check_iff true field rest p q = (λ h. (p.0 refl, q.0 h), λ h. q.1 h.1)
check_iff false field rest p q = (λ h. absurd (cc), λ h. absurd (cc (p.1 h.0)))

-- Two tests hold exactly if both do.
pub both_iff :
    {P Q : Type 0} (a b : Bool) → (a ≡ true) ↔ P → (b ≡ true) ↔ Q → ((a && b) ≡ true) ↔ (P × Q)
both_iff true b p q = (λ h. (p.0 refl, q.0 h), λ h. q.1 h.1)
both_iff false b p q = (λ h. absurd (cc), λ h. absurd (cc (p.1 h.0)))

unfoldable pub is_effort_name : Str → Bool
is_effort_name s = any (str_eq s) (
    codes "none"
    ∷ codes "minimal"
    ∷ codes "low"
    ∷ codes "medium"
    ∷ codes "high"
    ∷ codes "xhigh"
    ∷ [])

-- `is_reasoning_effort`
unfoldable pub is_reasoning_effort : {F : Type 0} → Json F → Bool
is_reasoning_effort (text s) = is_effort_name s
is_reasoning_effort _ = false

module _ (F : Float) where
  -- `lo <= x <= hi`
  unfoldable pub is_between : ℤ → ℤ → F.Number → Bool
  is_between lo hi x = F.le (F.literal lo) x && F.le x (F.literal hi)

-- The text is one of the list.
abbrev pub OneOf : Str → List Str → Type 0
OneOf s [] = ⊥
OneOf s (t ∷ l) = (s ≡ t) ⊎ OneOf s l

pub any-OneOf : (s : Str) (l : List Str) → (any (str_eq s) l ≡ true) ↔ OneOf s l
any-OneOf s [] = (λ h. absurd (cc), λ h. absurd h)
any-OneOf s (t ∷ l) = ground (arith, str_eq_iff s t, any-OneOf s l)

-- The six efforts of the API.
abbrev pub efforts : List Str
efforts =
    codes "none"
    ∷ codes "minimal"
    ∷ codes "low"
    ∷ codes "medium"
    ∷ codes "high"
    ∷ codes "xhigh"
    ∷ []

abbrev pub IsEffortName : Str → Type 0
IsEffortName s = OneOf s efforts

pub is_effort_name_iff : (s : Str) → (is_effort_name s ≡ true) ↔ IsEffortName s
unfolding is_effort_name
is_effort_name_iff s = any-OneOf s efforts
