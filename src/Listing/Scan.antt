-- ===== src/Listing/Scan.antt =====
-- The scan of an index ends, and gives the models that it is to give.
use vfront.Common.{
  ℕ, zero, suc, ◌+◌, ◌-◌, ◌≤◌, ◌<◌, Str, List, [], ◌∷◌, ◌++◌, reverse, Bool, true, false, not, ◌||◌,
  Option, some, ok, ok-injective, ◌≡◌, refl, sym, ap, ◌∙◌, inl, inr, Bool-cases, keep, length, take,
  drop, take_all, take-append_le, take-drop, length-take, length-drop, length-append, ltb, leb,
  if◌then◌else◌, arith,
}
use mathlib.Core.List.{append-nil, append_assoc, reverse-cons}
use vfront.Listing.{Source, batch_size, visit, last_key, scan, finished, list_created_at_models}
use vfront.Listing.Walk.{walk, walk_on}
use vfront.Store.Pages.Place.{is_ascending, is_beyond}
use vfront.Listing.Visit.{resolve_all, resolve_split, visit_lem}
use vfront.Listing.Stored.{StandFor, StartsAt, StandFor-resolve_all, StartsAt-start_after}

module _ {V T : Type 0} (S : Source V T) where
  scan_step :
      (fuel limit : ℕ) (reversed : Bool) (models : List T) (after : Option Str) (key : Str) (id : V)
      (page : List (Str × V)) (more : Bool) (models' : List T)
      → length models ≤ limit
      → S.list_page after (batch_size limit) reversed ≡ ok ((key, id) ∷ page, more)
      → visit S limit models ((key, id) ∷ page) ≡ ok models'
      → scan S (suc fuel) limit reversed models after ≡ (
          if ltb limit (length models') || not more
          then some (ok models')
          else scan S fuel limit reversed models' (some (last_key S key page)))
  unfolding scan
  scan_step fuel limit reversed models after key id page more models' room paged visited =
      let goes_on : leb (length models) limit ≡ true = ground (arith, room) in
      rw (goes_on, paged, visited, scan) refl

  last_split :
      (key : Str) (id : V) (page : List (Str × V))
      → (a : List (Str × V)) × (e : Str × V) × ((key, id) ∷ page ≡ a ++ e ∷ [])
        × (last_key S key page ≡ e.0)
  last_split key id [] = ([], (key, id), refl, refl)
  last_split key id ((next, other) ∷ page) =
      let (a, e, parts, is) = last_split next other page in
      ((key, id) ∷ a, e, ap (λ t. (key, id) ∷ t) parts, is)

  -- What a service of pages promises: the entries of an index, its shown ones in the order of their keys.
  pub record IsPaged (shown : List (Str × V)) : Type 0 where
    pub order : is_ascending shown ≡ true
    pub paged :
        (after : Option Str) (limit : ℕ) (reversed : Bool)
        → let left = walk shown after reversed in
          S.list_page after limit reversed ≡ ok (take limit left, ltb limit (length left))

  module _ (shown : List (Str × V)) (pages : IsPaged shown) (limit : ℕ) (reversed : Bool) where
    abbrev Scans : ℕ → List T → Option Str → List T → Type 0
    Scans fuel models after found =
        scan S fuel limit reversed models after ≡ some (ok (take (1 + limit) (models ++ found)))

    -- What follows a page, by what it has given: the limit is reached, the index is at its end, or the scan
    -- goes on.
    after_page :
        (fuel : ℕ) (models here there : List T) (key : Str) (more : Bool)
        → (more ≡ false → there ≡ [])
        → (length (models ++ here) ≤ limit → Scans fuel (models ++ here) (some key) there)
        → let models' = take (1 + limit) (models ++ here) in
          (if ltb limit (length models') || not more
            then some (ok models')
            else scan S fuel limit reversed models' (some key))
          ≡ some (ok (take (1 + limit) (models ++ (here ++ there))))
    after_page fuel models here there key more at_end ih =
        let models' = take (1 + limit) (models ++ here) in
        let count = length-take (1 + limit) (models ++ here) in
        let parts = append_assoc models here there in
        elim (Bool-cases (ltb limit (length models'))) [
          | inl full ↦
              let long : 1 + limit ≤ length (models ++ here) = ground (arith, full, count) in
              rw full (
                ap (λ (t : List T). some (ok t))
                  (sym (take-append_le (1 + limit) (models ++ here) there long)
                    ∙ ap (take (1 + limit)) parts))
          | inr space ↦
              let short : length (models ++ here) ≤ limit = ground (arith, space, count) in
              let whole : models' ≡ models ++ here =
                take_all (1 + limit) (models ++ here) (omega (arith, short)) in
              elim (Bool-cases more) [
                | inl goes_on ↦
                    rw (space, goes_on)
                      (ap (λ t. scan S fuel limit reversed t (some key)) whole
                        ∙ ih short
                        ∙ ap (λ (t : List T). some (ok (take (1 + limit) t))) parts)
                | inr ends ↦
                    rw (space, ends)
                      (ap (λ (t : List T). some (ok (take (1 + limit) (models ++ t))))
                        (sym (append-nil here) ∙ ap (λ t. here ++ t) (sym (at_end ends))))
              ]
        ]

    scan_stop :
        (fuel : ℕ) (models : List T) (after : Option Str) (more : Bool)
        → length models ≤ limit
        → S.list_page after (batch_size limit) reversed ≡ ok ([], more)
        → scan S (suc fuel) limit reversed models after ≡ some (ok models)
    unfolding scan
    scan_stop fuel models after more room paged =
        let goes_on : leb (length models) limit ≡ true = ground (arith, room) in
        rw (goes_on, paged, scan) refl

    take_nothing : (n : ℕ) → take {A = Str × V} n [] ≡ []
    take_nothing zero = refl
    take_nothing (suc n) = refl

    nothing_left : (l : List (Str × V)) → length l ≡ 0 → l ≡ []
    nothing_left [] h = refl
    nothing_left (e ∷ l) h = absurd (omega (arith, h))

    resolve_nothing :
        (l : List (Str × V)) {found : List T}
        → length l ≡ 0
        → resolve_all S l ≡ ok found
        → found ≡ []
    unfolding resolve_all
    resolve_nothing [] h p = sym (ok-injective p)
    resolve_nothing (e ∷ l) h p = absurd (omega (arith, h))

    -- With more fuel than entries are left, the scan ends, and gives what they stand for, up to one behind
    -- the limit.
    scan_lem :
        (fuel : ℕ) (models : List T) (after : Option Str) (left : List (Str × V)) {found : List T}
        → walk shown after reversed ≡ left
        → length left < fuel
        → length models ≤ limit
        → resolve_all S left ≡ ok found
        → Scans fuel models after found
    scan_lem zero models after left w enough room h = absurd (omega arith)
    scan_lem (suc fuel) models after [] {found} w enough room h =
        let batch = batch_size limit in
        let law =
          pages.paged after batch reversed
          ∙ ap (λ (l : List (Str × V)). ok (take batch l, ltb batch (length l))) w in
        let none_found = resolve_nothing [] refl h in
        scan_stop fuel models after _ room
          (law ∙ ap (λ (l : List (Str × V)). ok (l, ltb batch 0)) (take_nothing batch))
        ∙ ap (λ (t : List T). some (ok t))
            (sym (take_all (1 + limit) models (omega (arith, room)))
              ∙ ap (take (1 + limit))
                  (sym (append-nil models) ∙ ap (λ t. models ++ t) (sym none_found)))
    scan_lem (suc fuel) models after ((key, id) ∷ left) {found} w enough room h =
        let batch = batch_size limit in
        let b = batch - 1 in
        let positive : batch ≡ suc b = omega arith in
        let page = take b left in
        let rest = drop b left in
        let more = ltb batch (length ((key, id) ∷ left)) in
        let law =
          pages.paged after batch reversed
          ∙ ap (λ (l : List (Str × V)). ok (take batch l, ltb batch (length l))) w in
        let law' : S.list_page after batch reversed ≡ ok ((key, id) ∷ page, more) =
          law ∙ ap (λ (n : ℕ). ok (take n ((key, id) ∷ left), more)) positive in
        let whole = ap (λ t. (key, id) ∷ t) (take-drop b left) in
        let (here, there, p, q, parts) =
          resolve_split S ((key, id) ∷ page) rest (ap (resolve_all S) whole ∙ h) in
        let (a, e, split, last) = last_split key id page in
        let behind_page =
          ap (λ k. walk shown (some k) reversed) last
          ∙ walk_on shown after reversed a e rest pages.order
              (w ∙ sym whole ∙ ap (λ t. t ++ rest) split ∙ append_assoc a (e ∷ []) rest) in
        let fewer = length-drop b left in
        let visited = visit_lem S limit models ((key, id) ∷ page) room p in
        scan_step fuel limit reversed models after key id page more
          (take (1 + limit) (models ++ here)) room law' visited
        ∙ after_page fuel models here there (last_key S key page) more
            (λ ends. resolve_nothing rest (ground (arith, ends, fewer, positive)) q)
            (λ short.
              scan_lem fuel (models ++ here) (some (last_key S key page)) rest behind_page
                (omega (arith, fewer, enough)) short q)
        ∙ ap (λ (t : List T). some (ok (take (1 + limit) (models ++ t)))) (sym parts)

  take_again : (n : ℕ) (l : List T) → take n (take (suc n) l) ≡ take n l
  take_again zero l = refl
  take_again (suc n) [] = refl
  take_again (suc n) (x ∷ l) = ap (λ t. x ∷ t) (take_again n l)

  length_behind : (p : Str × V → Bool) (l : List (Str × V)) → length (keep p l) ≤ length l
  length_behind p [] = omega arith
  length_behind p (e ∷ l) = ground (arith, length_behind p l)

  length-reverse : (l : List (Str × V)) → length (reverse l) ≡ length l
  length-reverse [] = refl
  length-reverse (e ∷ l) =
      rw (reverse-cons e l) (omega (arith, length-append (reverse l) (e ∷ []), length-reverse l))

  length-walk :
      (shown : List (Str × V)) (after : Option Str) (reversed : Bool)
      → length (walk shown after reversed) ≤ length shown
  length-walk shown after true = omega (
    arith,
    length-reverse (keep (λ e. is_beyond after true e.0) shown),
    length_behind (λ e. is_beyond after true e.0) shown,
  )
  length-walk shown after false = length_behind (λ e. is_beyond after false e.0) shown

  -- Where the pages are those of an index whose entries are in the order of their keys, `after`
  -- is absent or names an object that is stored, and no lookup or validation raises: with more
  -- fuel than the index has entries the listing ends. It gives the first `limit` of the models
  -- that are stored, match, and lie behind `after` in the order of the walk, and says exactly
  -- whether there are more of them.
  pub list_created_at_models_lem :
      (shown : List (Str × V)) (fuel limit : ℕ) (after from : Option Str) (reversed : Bool)
      (found : List T)
      → IsPaged shown
      → StartsAt S after from
      → StandFor S (walk shown from reversed) found
      → length shown < fuel
      → list_created_at_models S fuel limit after reversed
        ≡ some (ok (take limit found, ltb limit (length found)))
  unfolding list_created_at_models
  list_created_at_models_lem shown fuel limit after from reversed found pages starts_at stand
        enough =
      let starts = StartsAt-start_after S starts_at in
      let h = StandFor-resolve_all S stand in
      let scanned =
        scan_lem shown pages limit reversed fuel [] from (walk shown from reversed) refl
          (omega (arith, length-walk shown from reversed, enough)) (omega arith) h in
      let one_more : 1 + limit ≡ suc limit = omega arith in
      let cut = ap (λ n. take limit (take n found)) one_more ∙ take_again limit found in
      let count = length-take (1 + limit) found in
      let more : ltb limit (length (take (1 + limit) found)) ≡ ltb limit (length found) =
        ground (arith, count) in
      let both : ◌≡◌ {A = List T × Bool}
          (take limit (take (1 + limit) found), ltb limit (length (take (1 + limit) found)))
          (take limit found, ltb limit (length found)) =
        rw (cut, more) refl in
      rw (starts, list_created_at_models)
        (ap (finished S limit) scanned ∙ ap (λ (t : List T × Bool). some (ok t)) both)
