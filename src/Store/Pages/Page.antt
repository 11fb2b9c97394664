-- ===== src/Store/Pages/Page.antt =====
-- What a page shows.
use mathlib.Core.List.{append-nil, append_assoc, reverse-cons}
use vfront.Common.{
  ℕ, ◌≤◌, Str, List, [], ◌∷◌, ◌++◌, reverse, map, Bool, true, false, Option, none, some, Result, ok,
  ◌>>=◌, >>=-eq-ok, ◌≡◌, refl, sym, ap, ◌∙◌, ok-injective, inl, inr, Bool-cases, keep, all,
  take_all, length, take, length-append, take-append, ltb, if◌then◌else◌, arith,
}
use vfront.Common.Digits.{lex_lt}
use vfront.Store.Lmdb.{Lmdb, Cbor}
use vfront.Store.Txn.{Config}
use vfront.Store.Pages.{
  Entry, Cursor, position_cursor, ahead, decode, list_keys, add_item, page_loop, list_page,
}
use vfront.Store.Pages.Place.{is_ascending, is_beyond, walked, walked-position_cursor}

module _ (C : Cbor) (cfg : Config) (L : Lmdb) (now : ℕ) where
  abbrev pub Shown : Type 0
  Shown = Str × C.Value

  -- The entries that a reader sees, with their values.
  unfoldable pub live : List Entry → Result (List Shown)
  live [] = ok []
  live ((key, raw) ∷ l) = do
    value ← decode C cfg L now raw
    rest ← live l
    ok (elim value [ none ↦ rest | some v ↦ (key, v) ∷ rest ])

  live_cons :
      (key raw : Str) (l : List Entry) {vs : List Shown}
      → live ((key, raw) ∷ l) ≡ ok vs
      → (value : Option C.Value) × (rest : List Shown) × (decode C cfg L now raw ≡ ok value)
        × (live l ≡ ok rest)
        × (vs ≡ elim value [ none ↦ rest | some v ↦ (key, v) ∷ rest ])
  unfolding live
  live_cons key raw l h =
      let (value, p, q) = >>=-eq-ok (decode C cfg L now raw) _ h in
      let (rest, p', q') = >>=-eq-ok (live l) _ q in (value, rest, p, p', cc)

  live-append :
      (l m : List Entry) {vs ws : List Shown}
      → live l ≡ ok vs
      → live m ≡ ok ws
      → live (l ++ m) ≡ ok (vs ++ ws)
  unfolding live
  live-append [] m h k = ground (arith, h, k)
  live-append ((key, raw) ∷ l) m h k =
      let (value, rest, p, p', e) = live_cons key raw l h in
      let ih = live-append l m p' k in rw (p, ih) (ground (arith, e))

  shown_last :
      (key : Str) (value : Option C.Value) (rest : List Shown)
      → reverse rest ++ (elim value [ none ↦ [] | some v ↦ (key, v) ∷ [] ])
        ≡ reverse (elim value [ none ↦ rest | some v ↦ (key, v) ∷ rest ])
  shown_last key none rest = append-nil (reverse rest)
  shown_last key (some v) rest = sym (reverse-cons (key, v) rest)

  live-reverse :
      (l : List Entry) {vs : List Shown} → live l ≡ ok vs → live (reverse l) ≡ ok (reverse vs)
  unfolding live
  live-reverse [] h = ap (λ (t : List Shown). ok (reverse t)) (ok-injective h)
  live-reverse ((key, raw) ∷ l) {vs} h =
      let (value, rest, p, p', e) = live_cons key raw l h in
      let last : live ((key, raw) ∷ []) ≡ ok (elim value [ none ↦ [] | some v ↦ (key, v) ∷ [] ]) =
        rw p in
      rw (reverse-cons (key, raw) l) (
        live-append (reverse l) ((key, raw) ∷ []) (live-reverse l p') last
        ∙ ap (λ (t : List Shown). ok t) (shown_last key value rest ∙ ap reverse (sym e)))

  live-keep :
      (test : Str → Bool) (l : List Entry) {vs : List Shown}
      → live l ≡ ok vs
      → live (keep (λ e. test e.0) l) ≡ ok (keep (λ e. test e.0) vs)
  unfolding live
  live-keep test [] h = ground (arith, h)
  live-keep test ((key, raw) ∷ l) h =
      let (value, rest, p, p', e) = live_cons key raw l h in
      let ih = live-keep test l p' in ground (arith, p, ih, e)

  -- The page is full: what is behind the last item does not show.
  take_full :
      (limit : ℕ) (items rest : List Shown) (x : Shown)
      → length items ≡ limit
      → ◌≡◌ {A = List Shown × Bool}
          (take limit (items ++ x ∷ []), true)
          (take limit (items ++ x ∷ rest), ltb limit (length (items ++ x ∷ rest)))
  take_full limit items rest x h =
      let here = take-append items (x ∷ []) in
      let there = take-append items (x ∷ rest) in
      rw (← h) (rw (here, there, length-append items (x ∷ rest)) (ground arith))

  -- What the loop is to return for the items so far and the records that are left.
  abbrev page_of : ℕ → List Shown → List Shown → Result (List Shown × Bool)
  page_of limit items vs = ok (take limit (items ++ vs), ltb limit (length (items ++ vs)))

  abbrev Loops : ℕ → List Entry → List Shown → Type 0
  Loops limit l vs =
      (items : List Shown)
      → length items ≤ limit
      → page_loop C cfg L now limit items l ≡ page_of limit items vs

  after_item :
      (limit : ℕ) (items : List Shown) (key : Str) (value : Option C.Value) (l : List Entry)
      (rest : List Shown)
      → length items ≤ limit
      → Loops limit l rest
      → (let items' = add_item C cfg L now items key value in
          if ltb limit (length items')
          then ok (take limit items', true)
          else page_loop C cfg L now limit items' l)
        ≡ page_of limit items (elim value [ none ↦ rest | some v ↦ (key, v) ∷ rest ])
  after_item limit items key none l rest room ih = ground (arith, ih items room)
  after_item limit items key (some v) l rest room ih =
      let longer = length-append items ((key, v) ∷ []) in
      elim (Bool-cases (ltb limit (length (items ++ (key, v) ∷ [])))) [
        | inl full ↦ rw full (
            ap (λ (r : List Shown × Bool). ok r)
              (take_full limit items rest (key, v) (ground (arith, room, longer))))
        | inr more ↦ rw more (
            ih (items ++ (key, v) ∷ []) (ground (arith, longer))
            ∙ rw (append_assoc items ((key, v) ∷ []) rest))
      ]

  page_loop_lem : (limit : ℕ) (l : List Entry) {vs : List Shown} → live l ≡ ok vs → Loops limit l vs
  unfolding page_loop live
  page_loop_lem limit [] {vs} h items room =
      rw (← ok-injective h) (rw (append-nil items, take_all limit items room) (ground arith))
  page_loop_lem limit ((key, raw) ∷ l) {vs} h items room =
      let (value, rest, p, p', e) = live_cons key raw l h in
      rw (p, e) (after_item limit items key value l rest room (page_loop_lem limit l p'))

  -- The loop over no cursor at all is the loop over no entries.
  loop_walked :
      (limit : ℕ) (reversed : Bool) (place : Option Cursor)
      → elim place [
        | none ↦ ok ([], false)
        | some c ↦ page_loop C cfg L now limit [] (ahead reversed c)
      ]
        ≡ page_loop C cfg L now limit [] (walked reversed place)
  unfolding page_loop
  loop_walked limit reversed none = refl
  loop_walked limit reversed (some c) = refl

  live_ordered :
      (reversed : Bool) (l : List Entry) {vs : List Shown}
      → live l ≡ ok vs
      → live (if reversed then reverse l else l) ≡ ok (if reversed then reverse vs else vs)
  live_ordered true l h = live-reverse l h
  live_ordered false l h = h

  -- The entries are in the order of their keys and all can be decoded. Then a page shows the
  -- first `limit` of the records that are live and lie strictly beyond the cursor, in the order
  -- of the walk, and says exactly whether there are more of them.
  pub list_page_lem :
      (entries : List Entry) (after : Option Str) (limit : ℕ) (reversed : Bool) {shown : List Shown}
      → is_ascending entries ≡ true
      → live entries ≡ ok shown
      → let chosen = keep (λ v. is_beyond after reversed v.0) shown in
        let ordered = if reversed then reverse chosen else chosen in
        list_page C cfg L now entries after limit reversed
        ≡ ok (take limit ordered, ltb limit (length ordered))
  unfolding list_page
  list_page_lem entries after limit reversed {shown} h all_live =
      let test = is_beyond after reversed in
      loop_walked limit reversed (position_cursor entries after reversed)
      ∙ rw (walked-position_cursor entries after reversed h) (
          page_loop_lem limit
            (if reversed
              then reverse (keep (λ (e : Entry). test e.0) entries)
              else keep (λ (e : Entry). test e.0) entries)
            (live_ordered reversed (keep (λ (e : Entry). test e.0) entries)
              (live-keep test entries all_live))
            [] (omega arith))

  -- `list_keys` answers with the keys of the records that are live, in their order.
  pub list_keys_lem :
      (entries : List Entry) {shown : List Shown}
      → live entries ≡ ok shown
      → list_keys C cfg L now entries ≡ ok (map (λ v. v.0) shown)
  unfolding list_keys live
  list_keys_lem [] h = ap (λ (t : List Shown). ok (map (λ v. v.0) t)) (ok-injective h)
  list_keys_lem ((key, raw) ∷ l) h =
      let (value, rest, p, p', e) = live_cons key raw l h in
      rw (p, list_keys_lem l p', e) (by_value value rest)
    where
      by_value :
          (value : Option C.Value) (rest : List Shown)
          → ok (elim value [ none ↦ map (λ v. v.0) rest | some v ↦ key ∷ map (λ v. v.0) rest ])
            ≡ ok (map (λ v. v.0) (elim value [ none ↦ rest | some v ↦ (key, v) ∷ rest ]))
      by_value none rest = refl
      by_value (some v) rest = refl

  live-all :
      (test : Str → Bool) (l : List Entry) {vs : List Shown}
      → all (λ e. test e.0) l ≡ true
      → live l ≡ ok vs
      → all (λ v. test v.0) vs ≡ true
  unfolding live
  live-all test [] h p = ap (all (λ v. test v.0)) (sym (ok-injective p))
  live-all test ((key, raw) ∷ l) h p =
      let (value, rest, q, q', e) = live_cons key raw l p in
      let ih = live-all test l (ground arith) q' in ground (arith, e, ih, h)

  -- What is shown is in the order of the keys as well.
  pub live-is_ascending :
      (l : List Entry) {vs : List Shown}
      → is_ascending l ≡ true
      → live l ≡ ok vs
      → is_ascending vs ≡ true
  unfolding live
  live-is_ascending [] h p = ap is_ascending (sym (ok-injective p))
  live-is_ascending ((key, raw) ∷ l) h p =
      let (value, rest, q, q', e) = live_cons key raw l p in
      let ih = live-is_ascending l (ground arith) q' in
      let beyond = live-all (lex_lt key) l (ground arith) q' in ground (arith, e, ih, beyond)
