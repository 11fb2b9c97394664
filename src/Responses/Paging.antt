-- ===== src/Responses/Paging.antt =====
-- A client that pages through the input items of a response gets each of them, once, in order.
use vfront.Common.{
  ℕ, zero, suc, ◌-◌, ◌≤◌, ◌<◌, Str, List, [], ◌∷◌, ◌++◌, map, reverse, Bool, true, false, not, ◌&&◌,
  Option, none, some, Result, ok, err, ◌≡◌, refl, sym, ap, ◌∙◌, inl, inr, Bool-cases, all, length,
  take, drop, take-drop, length-drop, ltb, str_eq, str_eq_self, str_eq_comm, if◌then◌else◌, arith,
}
use mathlib.Core.List.{append_assoc, append-nil}
use vfront.Responses.{index_of, skip_to, cut_at, page_between, paginate_response_input_items}

-- No id twice.
abbrev pub are_distinct : List Str → Bool
are_distinct [] = true
are_distinct (id ∷ ids) = all (λ other. not (str_eq other id)) ids && are_distinct ids

module _ {Item : Type 0} (id_of : Item → Str) where
  abbrev pub ids : List Item → List Str
  ids items = map id_of items

  none_like :
      (id : Str) (a : List Item) (x : Item) (b : List Item)
      → all (λ other. not (str_eq other id)) (ids (a ++ x ∷ b)) ≡ true
      → str_eq (id_of x) id ≡ false
  none_like id [] x b h = ground arith
  none_like id (y ∷ a) x b h = none_like id a x b (ground arith)

  not_before :
      (a : List Item) (x : Item) (b : List Item)
      → are_distinct (ids (a ++ x ∷ b)) ≡ true
      → index_of (id_of x) (ids (a ++ x ∷ b)) ≡ some (length a)
  unfolding index_of
  not_before [] x b h = rw (str_eq_self (id_of x)) refl
  not_before (y ∷ a) x b h =
      let other : str_eq (id_of y) (id_of x) ≡ false =
        str_eq_comm (id_of y) (id_of x) ∙ none_like (id_of y) a x b (ground arith) in
      let rest = not_before a x b (ground arith) in rw (other, rest) refl

  drop_past : (a : List Item) (x : Item) (b : List Item) → drop (suc (length a)) (a ++ x ∷ b) ≡ b
  drop_past [] x b = refl
  drop_past (y ∷ a) x b = drop_past a x b

  abbrev last_id : Item → List Item → Str
  last_id item [] = id_of item
  last_id item (next ∷ items) = last_id next items

  module _ (items : List Item) (limit : ℕ) (asc : Bool) where
    -- The client asks for the page after the last item that it has, while there is more.
    unfoldable pub fetch_all : ℕ → Option Str → Option (Result (List Item))
    fetch_all zero after = none
    fetch_all (suc fuel) after =
        elim (paginate_response_input_items id_of items limit asc after none) [
          | err e ↦ some (err e)
          | ok ([], more) ↦ some (ok [])
          | ok (item ∷ page, more) ↦
              let rest = fetch_all fuel (some (last_id item page)) in
              if more
              then elim rest [
                | none ↦ none
                | some (err e) ↦ some (err e)
                | some (ok others) ↦ some (ok (item ∷ page ++ others))
              ]
              else some (ok (item ∷ page))
        ]

    abbrev ordered : List Item
    ordered = if asc then items else reverse items

    page_law :
        (after : Option Str) (left : List Item)
        → skip_to id_of after ordered ≡ ok left
        → paginate_response_input_items id_of items limit asc after none
          ≡ ok (take limit left, ltb limit (length left))
    unfolding paginate_response_input_items page_between cut_at
    page_law none left h = rw (h, page_between) refl
    page_law (some after) left h = rw (h, page_between) refl

    skip_past :
        (a : List Item) (x : Item) (b : List Item)
        → are_distinct (ids ordered) ≡ true
        → ordered ≡ a ++ x ∷ b
        → skip_to id_of (some (id_of x)) ordered ≡ ok b
    unfolding skip_to
    skip_past a x b h e =
        let found = not_before a x b (ap (λ l. are_distinct (ids l)) (sym e) ∙ h) in
        ap (skip_to id_of (some (id_of x))) e
        ∙ rw (found, skip_to) (ap (λ (l : List Item). ok l) (drop_past a x b))

    last_split :
        (item : Item) (page : List Item)
        → (a : List Item) × (x : Item) × (item ∷ page ≡ a ++ x ∷ []) × (last_id item page ≡ id_of x)
    last_split item [] = ([], item, refl, refl)
    last_split item (next ∷ page) =
        let (a, x, parts, is) = last_split next page in (item ∷ a, x, ap (λ t. item ∷ t) parts, is)

    fetch_stop :
        (fuel : ℕ) (after : Option Str) (more : Bool)
        → paginate_response_input_items id_of items limit asc after none ≡ ok ([], more)
        → fetch_all (suc fuel) after ≡ some (ok [])
    unfolding fetch_all
    fetch_stop fuel after more h = rw (h, fetch_all) refl

    fetch_end :
        (fuel : ℕ) (after : Option Str) (item : Item) (page : List Item)
        → paginate_response_input_items id_of items limit asc after none ≡ ok (item ∷ page, false)
        → fetch_all (suc fuel) after ≡ some (ok (item ∷ page))
    unfolding fetch_all
    fetch_end fuel after item page h = rw (h, fetch_all) refl

    fetch_more :
        (fuel : ℕ) (after : Option Str) (item : Item) (page others : List Item)
        → paginate_response_input_items id_of items limit asc after none ≡ ok (item ∷ page, true)
        → fetch_all fuel (some (last_id item page)) ≡ some (ok others)
        → fetch_all (suc fuel) after ≡ some (ok (item ∷ page ++ others))
    unfolding fetch_all
    fetch_more fuel after item page others h rest = rw (h, rest, fetch_all) refl

    no_items : (l : List Item) → length l ≡ 0 → l ≡ []
    no_items [] h = refl
    no_items (x ∷ l) h = absurd (omega (arith, h))

    fetch_lem :
        (fuel : ℕ) (after : Option Str) (seen left : List Item)
        → 1 ≤ limit
        → are_distinct (ids ordered) ≡ true
        → skip_to id_of after ordered ≡ ok left
        → ordered ≡ seen ++ left
        → length left < fuel
        → fetch_all fuel after ≡ some (ok left)
    fetch_lem zero after seen left positive h skip parts enough = absurd (omega arith)
    fetch_lem (suc fuel) after seen [] positive h skip parts enough =
        fetch_stop fuel after (ltb limit 0) (
          page_law after [] skip ∙ ap (λ (l : List Item). ok (l, ltb limit 0)) (take_nothing limit))
      where
        take_nothing : (n : ℕ) → take {A = Item} n [] ≡ []
        take_nothing zero = refl
        take_nothing (suc n) = refl
    fetch_lem (suc fuel) after seen (item ∷ left) positive h skip parts enough =
        let b = limit - 1 in
        let one_more : limit ≡ suc b = omega (arith, positive) in
        let page = take b left in
        let rest = drop b left in
        let more = ltb limit (length (item ∷ left)) in
        let law =
          page_law after (item ∷ left) skip
          ∙ ap (λ (n : ℕ). ok (take n (item ∷ left), more)) one_more in
        let whole = take-drop b left in
        let fewer = length-drop b left in
        elim (Bool-cases more) [
          | inl goes_on ↦
              let (a, x, split, last) = last_split item page in
              let place : ordered ≡ (seen ++ a) ++ x ∷ rest =
                parts
                ∙ ap (λ t. seen ++ (item ∷ t)) (sym whole)
                ∙ ap (λ t. seen ++ (t ++ rest)) split
                ∙ ap (λ t. seen ++ t) (append_assoc a (x ∷ []) rest)
                ∙ sym (append_assoc seen a (x ∷ rest)) in
              let next : skip_to id_of (some (last_id item page)) ordered ≡ ok rest =
                ap (λ k. skip_to id_of (some k) ordered) last
                ∙ skip_past (seen ++ a) x rest h place in
              let place' : ordered ≡ ((seen ++ a) ++ x ∷ []) ++ rest =
                place ∙ sym (append_assoc (seen ++ a) (x ∷ []) rest) in
              fetch_more fuel after item page rest
                (law ∙ ap (λ (m : Bool). ok (item ∷ page, m)) goes_on)
                (fetch_lem fuel (some (last_id item page)) ((seen ++ a) ++ x ∷ []) rest positive h
                  next place' (omega (arith, fewer, enough)))
              ∙ ap (λ t. some (ok (item ∷ t))) whole
          | inr ends ↦
              let gone = no_items rest (ground (arith, ends, fewer, one_more)) in
              fetch_end fuel after item page (law ∙ ap (λ (m : Bool). ok (item ∷ page, m)) ends)
              ∙ ap (λ t. some (ok (item ∷ t)))
                  (sym (append-nil page) ∙ ap (λ t. page ++ t) (sym gone) ∙ whole)
        ]

    -- When no two items have the same id and the limit is at least one, a client that asks for page
    -- after page, each after the last item of the one before, comes to the end in no more
    -- rounds than there are items and one, and has got all items in their order.
    pub fetch_all_lem :
        (fuel : ℕ)
        → 1 ≤ limit
        → are_distinct (ids ordered) ≡ true
        → length ordered < fuel
        → fetch_all fuel none ≡ some (ok ordered)
    fetch_all_lem fuel positive h enough =
        fetch_lem fuel none [] ordered positive h (unfold skip_to in refl) refl enough
