-- ===== src/Listing/Stored.antt =====
-- What the entries of an index stand for, from what the store answers for each of them.
use vfront.Common.{Str, List, [], ◌∷◌, Option, none, some, true, false, ok, ◌≡◌, refl}
use vfront.Listing.{Source, index_key, resolve, start_after}
use vfront.Listing.Visit.{resolve_all}

module _ {V T : Type 0} (S : Source V T) where
  -- The entries, in their order, with the models that are listed for them: an entry whose object is not
  -- stored, or does not match, has none.
  pub data StandFor : List (Str × V) → List T → Type 0 where
    nothing_left : StandFor [] []
    not_stored :
        {key : Str} {id : V} {l : List (Str × V)} {found : List T}
        → S.get (S.to_str id) ≡ ok none
        → StandFor l found
        → StandFor ((key, id) ∷ l) found
    no_match :
        {key : Str} {id raw : V} {model : T} {l : List (Str × V)} {found : List T}
        → S.get (S.to_str id) ≡ ok (some raw)
        → S.model_validate raw ≡ ok model
        → S.predicate model ≡ false
        → StandFor l found
        → StandFor ((key, id) ∷ l) found
    matching :
        {key : Str} {id raw : V} {model : T} {l : List (Str × V)} {found : List T}
        → S.get (S.to_str id) ≡ ok (some raw)
        → S.model_validate raw ≡ ok model
        → S.predicate model ≡ true
        → StandFor l found
        → StandFor ((key, id) ∷ l) (model ∷ found)

  -- The key behind which a listing starts: none, or that of a stored object.
  pub data StartsAt : Option Str → Option Str → Type 0 where
    from_first : StartsAt none none
    behind :
        {after : Str} {raw : V} {model : T}
        → S.get after ≡ ok (some raw)
        → S.model_validate raw ≡ ok model
        → StartsAt (some after) (some (index_key S model))

  pub StandFor-resolve_all :
      {l : List (Str × V)} {found : List T} → StandFor l found → resolve_all S l ≡ ok found
  unfolding resolve_all resolve
  StandFor-resolve_all nothing_left = refl
  StandFor-resolve_all (not_stored gone rest) = rw (gone, StandFor-resolve_all rest) refl
  StandFor-resolve_all (no_match there valid other rest) =
      rw (there, valid, other, StandFor-resolve_all rest) refl
  StandFor-resolve_all (matching there valid fits rest) =
      rw (there, valid, fits, StandFor-resolve_all rest) refl

  pub StartsAt-start_after :
      {after from : Option Str} → StartsAt after from → start_after S after ≡ ok (some from)
  unfolding start_after
  StartsAt-start_after from_first = refl
  StartsAt-start_after (behind there valid) = rw (there, valid) refl
