-- ===== src/Listing/Visit.antt =====
-- What the entries of a page stand for, and the loop over them.
use vfront.Common.{
  ℕ, ◌+◌, ◌≤◌, Str, List, [], ◌∷◌, ◌++◌, Option, none, some, Result, ok, ◌>>=◌, >>=-eq-ok,
  ok-injective, ◌≡◌, refl, sym, ap, ◌∙◌, inl, inr, Bool-cases, length, take, take_all, take-append,
  length-append, ltb, if◌then◌else◌, arith,
}
use mathlib.Core.List.{append-nil, append_assoc}
use vfront.Listing.{Source, resolve, visit}

module _ {V T : Type 0} (S : Source V T) where
  abbrev pub with_found : Option T → List T → List T
  with_found none rest = rest
  with_found (some model) rest = model ∷ rest

  with_found-append :
      (found : Option T) (here there : List T)
      → with_found found (here ++ there) ≡ with_found found here ++ there
  with_found-append none here there = refl
  with_found-append (some model) here there = refl

  -- The models that entries stand for, in their order.
  unfoldable pub resolve_all : List (Str × V) → Result (List T)
  resolve_all [] = ok []
  resolve_all ((key, id) ∷ l) = do
    found ← resolve S id
    rest ← resolve_all l
    ok (with_found found rest)

  resolve_cons :
      (key : Str) (id : V) (l : List (Str × V)) {all_found : List T}
      → resolve_all ((key, id) ∷ l) ≡ ok all_found
      → (found : Option T) × (rest : List T) × (resolve S id ≡ ok found)
        × (resolve_all l ≡ ok rest)
        × (all_found ≡ with_found found rest)
  unfolding resolve_all
  resolve_cons key id l h =
      let (found, p, q) = >>=-eq-ok (resolve S id) _ h in
      let (rest, p', q') = >>=-eq-ok (resolve_all l) _ q in (found, rest, p, p', cc)

  pub resolve_split :
      (a b : List (Str × V)) {all_found : List T}
      → resolve_all (a ++ b) ≡ ok all_found
      → (here : List T) × (there : List T) × (resolve_all a ≡ ok here)
        × (resolve_all b ≡ ok there)
        × (all_found ≡ here ++ there)
  unfolding resolve_all
  resolve_split [] b {all_found} h = ([], all_found, refl, h, refl)
  resolve_split ((key, id) ∷ a) b h =
      let (found, rest, p, p', e) = resolve_cons key id (a ++ b) h in
      let (here, there, q, q', e') = resolve_split a b p' in
      (
        with_found found here,
        there,
        rw (p, q) refl,
        q',
        e ∙ ap (λ t. with_found found t) e' ∙ with_found-append found here there,
      )

  -- The loop over a page gives what is found, and stops one behind the limit.
  pub visit_lem :
      (limit : ℕ) (models : List T) (page : List (Str × V)) {found : List T}
      → length models ≤ limit
      → resolve_all page ≡ ok found
      → visit S limit models page ≡ ok (take (1 + limit) (models ++ found))
  unfolding visit resolve_all
  visit_lem limit models [] room h =
      let none_found = ok-injective h in
      rw (← none_found)
        (rw (append-nil models, take_all (1 + limit) models (omega (arith, room))) refl)
  visit_lem limit models ((key, id) ∷ page) room h =
      let (found, rest, p, p', e) = resolve_cons key id page h in
      rw (p, e) (after_found found rest (λ models' room'. visit_lem limit models' page room' p'))
    where
      after_found :
          (found : Option T) (rest : List T)
          → ((models' : List T)
              → length models' ≤ limit
              → visit S limit models' page ≡ ok (take (1 + limit) (models' ++ rest)))
          → (let visited : Result (List T) = elim found [
            | none ↦ visit S limit models page
            | some model ↦
                let longer = models ++ model ∷ [] in
                if ltb limit (length longer) then ok longer else visit S limit longer page
          ] in
              visited)
            ≡ ok (take (1 + limit) (models ++ with_found found rest))
      after_found none rest ih = ih models room
      after_found (some model) rest ih =
          let longer = models ++ model ∷ [] in
          let count = length-append models (model ∷ []) in
          let parts = append_assoc models (model ∷ []) rest in
          elim (Bool-cases (ltb limit (length longer))) [
            | inl full ↦
                let exact : length longer ≡ 1 + limit = ground (arith, full, count, room) in
                rw full (
                  ap (λ (t : List T). ok t)
                    (sym (take-append longer rest)
                      ∙ ap (λ n. take n (longer ++ rest)) exact
                      ∙ ap (take (1 + limit)) parts))
            | inr space ↦ rw space (
                ih longer (ground (arith, space))
                ∙ ap (λ (t : List T). ok (take (1 + limit) t)) parts)
          ]
