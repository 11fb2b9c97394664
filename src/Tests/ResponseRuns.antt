-- ===== src/Tests/ResponseRuns.antt =====
-- The theorems on stored responses, at three items and at a running job.
use vfront.Common.{
  Str, List, [], ◌∷◌, true, false, Option, none, some, ok, ◌≡◌, refl, codes, str_eq, arith,
}
use vfront.Jobs.Executions.{CancelUpdate, running}
use vfront.Responses.{Response, response, refusal, granted, cancel_response}
use vfront.Responses.Paging.{are_distinct, fetch_all, fetch_all_lem}

abbrev items : List Str
items = codes "a" ∷ codes "b" ∷ codes "c" ∷ []

all_distinct : are_distinct (codes "c" ∷ codes "b" ∷ codes "a" ∷ []) ≡ true
unfolding str_eq
all_distinct = refl

fetch_all_lem_example :
    fetch_all (λ (id : Str). id) items 2 false 4 none
    ≡ some (ok (codes "c" ∷ codes "b" ∷ codes "a" ∷ []))
fetch_all_lem_example =
    fetch_all_lem (λ (id : Str). id) items 2 false 4 (omega arith) all_distinct (omega arith)

abbrev update : Option (CancelUpdate (Unit {0}))
update = some (record {
  previous_status = running;
  execution = record {
    job_id = codes "r";
    status = running;
    cancel_requested = true;
    attempt = 1;
    owner_id = none;
    last_error = none;
    created_at = 1;
    updated_at = 2;
    started_at = some 1;
    finished_at = none;
    extra = tt;
  };
})

abbrev stored : Option Response
stored = some (record { status = codes "in_progress"; completed_at = none })

abbrev cancelling : Response
cancelling = record { status = codes "cancelling"; completed_at = none }

is_granted : (cancel_response update stored 5).0 ≡ ok (response cancelling)
unfolding cancel_response refusal granted
is_granted = refl
