-- ===== src/Listing.antt =====
-- api/v1/helper/indexed_store.py: objects that are listed by the time of their creation. The store's
-- `get` and `list_page`, and what the callers pass, are parameters; `Listing.OnStore` fills in the pages.
pub mod Walk
pub mod Visit
pub mod Stored
pub mod Scan
pub mod Keys
pub mod OnStore
use vfront.Common.{
  ℕ, zero, suc, ◌+◌, ◌*◌, ◌^◌, max, min, Str, List, [], ◌∷◌, ◌++◌, map, Bool, true, false, not,
  ◌||◌, Option, none, some, ℤ, pos, negsuc, Result, ok, err, ◌>>=◌, codes, length, take, ltb, leb,
  if◌then◌else◌,
}
use vfront.Common.Digits.{digits}

-- How wide `{n:020d}` comes out: twenty digits, or as many as the number has.
unfoldable pub width : ℕ → ℕ → ℕ → ℕ
width zero w n = w
width (suc fuel) w n = let wider = width fuel (1 + w) n in if ltb n (10 ^ w) then w else wider

-- `f"{normalized:020d}"`
unfoldable pub padded : ℕ → Str
padded n = map (λ d. 48 + d) (digits 10 (width n 20 n) n)

-- `max(time, 0)`
abbrev pub normalized : ℤ → ℕ
normalized (pos n) = n
normalized (negsuc n) = 0

-- The time is `int(created_at * scale)`.
unfoldable pub build_created_at_index_key : ℤ → Str → Str
build_created_at_index_key time object_id = padded (normalized time) ++ codes ":" ++ object_id

abbrev pub batch_size : ℕ → ℕ
batch_size limit = min (max (limit * 2) 50) 500

-- The store, and what the callers pass.
pub record Source (V T : Type 0) : Type 0 where
  pub get : Str → Result (Option V)
  pub list_page : Option Str → ℕ → Bool → Result (List (Str × V) × Bool)
  -- `str(object_id)`
  pub to_str : V → Str
  pub model_validate : V → Result T
  pub object_id : T → Str
  -- `int(created_at_getter(model) * scale)`
  pub time : T → ℤ
  pub predicate : T → Bool

module _ {V T : Type 0} (S : Source V T) where
  unfoldable pub index_key : T → Str
  index_key model = build_created_at_index_key (S.time model) (S.object_id model)

  -- The model that an entry of the index stands for, when it is stored and matches.
  unfoldable pub resolve : V → Result (Option T)
  resolve id = do
    stored ← S.get (S.to_str id)
    elim stored [
      | none ↦ ok none
      | some raw ↦ do
        model ← S.model_validate raw
        ok (if S.predicate model then some model else none)
    ]

  -- The loop over a page, which stops at the model that is one too many.
  unfoldable pub visit : ℕ → List T → List (Str × V) → Result (List T)
  visit limit models [] = ok models
  visit limit models ((key, id) ∷ page) = do
    found ← resolve id
    elim found [
      | none ↦ visit limit models page
      | some model ↦
          let longer = models ++ model ∷ [] in
          let rest = visit limit longer page in
          if ltb limit (length longer) then ok longer else rest
    ]

  abbrev pub last_key : Str → List (Str × V) → Str
  last_key key [] = key
  last_key key ((next, id) ∷ page) = last_key next page

  -- `while len(models) <= limit`, on fuel
  unfoldable pub scan : ℕ → ℕ → Bool → List T → Option Str → Option (Result (List T))
  scan zero limit reversed models after = none
  scan (suc fuel) limit reversed models after =
      if leb (length models) limit
      then elim (S.list_page after (batch_size limit) reversed) [
        | err e ↦ some (err e)
        | ok ([], more) ↦ some (ok models)
        | ok ((key, id) ∷ page, more) ↦ elim (visit limit models ((key, id) ∷ page)) [
          | err e ↦ some (err e)
          | ok models' ↦
              let rest = scan fuel limit reversed models' (some (last_key key page)) in
              if ltb limit (length models') || not more then some (ok models') else rest
        ]
      ]
      else some (ok models)

  abbrev pub result_of : ℕ → Result (List T) → Result (List T × Bool)
  result_of limit (err e) = err e
  result_of limit (ok models) = ok (take limit models, ltb limit (length models))

  abbrev pub finished : ℕ → Option (Result (List T)) → Option (Result (List T × Bool))
  finished limit none = none
  finished limit (some r) = some (result_of limit r)

  -- Where the scan starts: `none` for an `after` that is not stored.
  unfoldable pub start_after : Option Str → Result (Option (Option Str))
  start_after none = ok (some none)
  start_after (some after) = do
    stored ← S.get after
    elim stored [
      | none ↦ ok none
      | some raw ↦ do model ← S.model_validate raw; ok (some (some (index_key model)))
    ]

  unfoldable pub list_created_at_models :
      ℕ → ℕ → Option Str → Bool → Option (Result (List T × Bool))
  list_created_at_models fuel limit after reversed = elim (start_after after) [
    | err e ↦ some (err e)
    | ok none ↦ some (ok ([], false))
    | ok (some from) ↦ finished limit (scan fuel limit reversed [] from)
  ]
