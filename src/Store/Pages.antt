-- ===== src/Store/Pages.antt =====
-- `list_keys`, `list_page` and `_position_cursor` of lmdb.py. An LMDB cursor walks the entries of a
-- database in the order of their keys: `entries` is that sequence, and a cursor a place in it. A stored
-- None, which the code passes over as it does a record that is due, is not a value here.
pub mod Place
pub mod Page
use vfront.Common.{
  ℕ, ◌+◌, Str, List, [], ◌∷◌, ◌++◌, reverse, Bool, true, false, Option, none, some, Result, ok, err,
  Exn, value_error, ◌>>=◌, ◌==◌, ltb, leb, length, take, str_eq, if◌then◌else◌,
}
use vfront.Common.Digits.{lex_lt}
use vfront.Store.Lmdb.{Lmdb, Cbor}
use vfront.Store.Codec.{esc_namespace}
use vfront.Store.Txn.{Config, decode_raw_value}

abbrev pub Entry : Type 0
Entry = Str × Str

-- The entries before the cursor, nearest first, the one under it, and those behind it.
pub record Cursor : Type 0 where
  pub before : List Entry
  pub item : Entry
  pub behind : List Entry

unfoldable pub first : List Entry → Option Cursor
first [] = none
first (e ∷ l) = some (record { before = []; item = e; behind = l })

abbrev pub last_of : List Entry → Option Cursor
last_of [] = none
last_of (e ∷ l) = some (record { before = l; item = e; behind = [] })

unfoldable pub last : List Entry → Option Cursor
last entries = last_of (reverse entries)

-- `cursor.set_range(key)`: the first entry at or behind the key
unfoldable pub set_range : Str → List Entry → List Entry → Option Cursor
set_range key before [] = none
set_range key before (e ∷ l) =
    let rest = set_range key (e ∷ before) l in
    if lex_lt e.0 key then rest else some (record { before = before; item = e; behind = l })

abbrev pub step_next : List Entry → Entry → List Entry → Option Cursor
step_next before item [] = none
step_next before item (e ∷ l) = some (record { before = item ∷ before; item = e; behind = l })

-- `while cursor.key() >= after_key: if not cursor.prev(): return False`
unfoldable pub back_off : Str → List Entry → Entry → List Entry → Option Cursor
back_off after [] item behind =
    if lex_lt item.0 after
    then some (record { before = []; item = item; behind = behind })
    else none
back_off after (e ∷ l) item behind =
    let rest = back_off after l e (item ∷ behind) in
    if lex_lt item.0 after
    then some (record { before = e ∷ l; item = item; behind = behind })
    else rest

abbrev pub past_key : Str → Option Cursor → Option Cursor
past_key after none = none
past_key after (some c) =
    if str_eq c.item.0 after then step_next c.before c.item c.behind else some c

abbrev pub before_key : Str → List Entry → Option Cursor → Option Cursor
before_key after entries none = last entries
before_key after entries (some c) = back_off after c.before c.item c.behind

-- `_position_cursor`
unfoldable pub position_cursor : List Entry → Option Str → Bool → Option Cursor
position_cursor entries none reversed = if reversed then last entries else first entries
position_cursor entries (some after) reversed =
    if reversed
    then before_key after entries (set_range after [] entries)
    else past_key after (set_range after [] entries)

-- The entries that the loop of `_list_page` meets, from the cursor on.
abbrev pub ahead : Bool → Cursor → List Entry
ahead reversed c = c.item ∷ (if reversed then c.before else c.behind)

module _ (C : Cbor) (cfg : Config) (L : Lmdb) (now : ℕ) where
  abbrev pub decode : Str → Result (Option C.Value)
  decode raw = decode_raw_value L C cfg (some raw) now

  -- `_list_keys`
  unfoldable pub list_keys : List Entry → Result (List Str)
  list_keys [] = ok []
  list_keys ((key, raw) ∷ l) = do
    value ← decode raw
    keys ← list_keys l
    ok (elim value [ none ↦ keys | some v ↦ key ∷ keys ])

  -- One round of the loop: the items so far, and whether the page is full.
  abbrev pub add_item : List (Str × C.Value) → Str → Option C.Value → List (Str × C.Value)
  add_item items key none = items
  add_item items key (some value) = items ++ (key, value) ∷ []

  unfoldable pub page_loop :
      ℕ → List (Str × C.Value) → List Entry → Result (List (Str × C.Value) × Bool)
  page_loop limit items [] = ok (items, false)
  page_loop limit items ((key, raw) ∷ l) = do
    value ← decode raw
    let items' = add_item items key value
    let rest = page_loop limit items' l
    if ltb limit (length items') then ok (take limit items', true) else rest

  -- `_list_page`
  unfoldable pub list_page :
      List Entry → Option Str → ℕ → Bool → Result (List (Str × C.Value) × Bool)
  list_page entries after limit reversed = elim (position_cursor entries after reversed) [
    | none ↦ ok ([], false)
    | some c ↦ page_loop limit [] (ahead reversed c)
  ]

-- What the public `list_page` checks first.
unfoldable pub check_page : Str → ℕ → Result Str
check_page namespace limit = if ltb limit 1 then err value_error else esc_namespace namespace
