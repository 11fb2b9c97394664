-- ===== src/Responses.antt =====
-- Stored responses: `paginate_response_input_items` of service/persistence/response_store.py, and the use
-- cases of usecases/responses_admin.py. What the calls that they are given answer is an argument, and
-- what they are asked to do a list of effects.
pub mod Paging
pub mod Cancel
use vfront.Common.{
  ℕ, suc, ◌+◌, Str, List, [], ◌∷◌, ◌++◌, map, reverse, Bool, true, false, not, ◌&&◌, Option, none,
  some, Result, ok, err, Exn, invalid_request, not_found, ◌>>=◌, ltb, codes, length, take, drop,
  ◌||◌, str_eq, is_some, if◌then◌else◌,
}
use vfront.Jobs.Executions.{ExecutionStatus, queued, running, Execution, CancelUpdate, is_terminal}

-- `ids.index(id)`
unfoldable pub index_of : Str → List Str → Option ℕ
index_of id [] = none
index_of id (other ∷ ids) =
    let rest = index_of id ids in
    if str_eq other id then some 0 else elim rest [ none ↦ none | some i ↦ some (suc i) ]

-- The items have ids, `str(item.get("id") or "")`.
module _ {Item : Type 0} (id_of : Item → Str) where
  -- `ordered[ids.index(after) + 1 :]`
  unfoldable pub skip_to : Option Str → List Item → Result (List Item)
  skip_to none ordered = ok ordered
  skip_to (some after) ordered = elim (index_of after (map id_of ordered)) [
    | none ↦ err invalid_request
    | some i ↦ ok (drop (suc i) ordered)
  ]

  -- `ordered[: ids.index(before)]`
  unfoldable pub cut_at : Option Str → List Item → Result (List Item)
  cut_at none ordered = ok ordered
  cut_at (some before) ordered = elim (index_of before (map id_of ordered)) [
    | none ↦ err invalid_request
    | some i ↦ ok (take i ordered)
  ]

  unfoldable pub page_between :
      List Item → ℕ → Bool → Option Str → Option Str → Result (List Item × Bool)
  page_between items limit asc after before = do
    from ← skip_to after (if asc then items else reverse items)
    ordered ← cut_at before from
    ok (take limit ordered, ltb limit (length ordered))

  unfoldable pub paginate_response_input_items :
      List Item → ℕ → Bool → Option Str → Option Str → Result (List Item × Bool)
  paginate_response_input_items items limit asc after before =
      if is_some after && is_some before
      then err invalid_request
      else page_between items limit asc after before

-- ResponseItemList; its `data` is `items` here
pub record ItemList (Item : Type 0) : Type 0 where
  pub items : List Item
  pub has_more : Bool
  pub first_id : Option Str
  pub last_id : Option Str

module _ {Item : Type 0} (id_of shown_id : Item → Str) where
  -- `str(page_items[0].get("id")) if page_items else None`, and the same for the last
  abbrev pub first_shown : List Item → Option Str
  first_shown [] = none
  first_shown (item ∷ items) = some (shown_id item)

  abbrev pub last_shown : List Item → Option Str
  last_shown [] = none
  last_shown (item ∷ []) = some (shown_id item)
  last_shown (item ∷ next ∷ items) = last_shown (next ∷ items)

  -- `list_response_input_items_use_case`, by whether the response is stored, and its input items
  unfoldable pub list_response_input_items :
      Bool → List Item → ℕ → Bool → Option Str → Option Str → Result (ItemList Item)
  list_response_input_items false items limit asc after before = err not_found
  list_response_input_items true items limit asc after before = do
    page ← paginate_response_input_items id_of items limit asc after before
    ok (record {
      items = page.0;
      has_more = page.1;
      first_id = first_shown page.0;
      last_id = last_shown page.0;
    })

-- What the use cases read and change of a ResponseObject.
pub record Response : Type 0 where
  pub status : Str
  pub completed_at : Option ℕ

-- What a use case has its callers do.
pub data Effect : Type 0 where
  persist : Response → Effect
  delete_state delete_spec request_runner_cancel : Effect

-- The answer to a cancellation: the response as it is stored then, or a bare status.
pub data CancelAnswer : Type 0 where
  response : Response → CancelAnswer
  bare : Str → CancelAnswer

abbrev pub is_pending : Response → Bool
is_pending r = str_eq r.status (codes "queued") || str_eq r.status (codes "in_progress")

abbrev pub is_running : ExecutionStatus → Bool
is_running running = true
is_running _ = false

abbrev pub is_active : ExecutionStatus → Bool
is_active queued = true
is_active running = true
is_active _ = false

-- What `cancel_response_use_case` does when nothing refuses it, by whether the job runs.
unfoldable pub granted : Bool → Option Response → ℕ → CancelAnswer × List Effect
granted true none now = (bare (codes "cancelling"), request_runner_cancel ∷ [])
granted false none now = (bare (codes "cancelled"), request_runner_cancel ∷ [])
granted true (some r) now =
    let cancelling : Response = record { status = codes "cancelling"; completed_at = none } in
    (response cancelling, persist cancelling ∷ request_runner_cancel ∷ [])
granted false (some r) now =
    let cancelled : Response = record { status = codes "cancelled"; completed_at = some now } in
    (response cancelled, persist cancelled ∷ delete_spec ∷ request_runner_cancel ∷ [])

module _ {X : Type 0} where
  -- `delete_response_use_case`
  unfoldable pub delete_response :
      Option Response → Option (Execution X) → Result (Unit {0}) × List Effect
  delete_response none execution = (err not_found, [])
  delete_response (some r) none = (ok tt, delete_state ∷ [])
  delete_response (some r) (some e) =
      if is_active e.status then (err invalid_request, []) else (ok tt, delete_state ∷ [])

  -- The checks of `cancel_response_use_case`, by the answer of the job store and the stored response.
  unfoldable pub refusal : Option (CancelUpdate X) → Option Response → Option Exn
  refusal none none = some not_found
  refusal none (some r) = if is_pending r then none else some invalid_request
  refusal (some u) stored = if is_terminal u.previous_status then some invalid_request else none

  abbrev pub runs : Option (CancelUpdate X) → Bool
  runs none = false
  runs (some u) = is_running u.execution.status

  unfoldable pub cancel_response :
      Option (CancelUpdate X) → Option Response → ℕ → Result CancelAnswer × List Effect
  cancel_response update stored now = elim (refusal update stored) [
    | some e ↦ (err e, [])
    | none ↦ let (answer, effects) = granted (runs update) stored now in (ok answer, effects)
  ]
