-- ===== src/Tests/ListingRuns.antt =====
-- The theorems on pages and listings, at a database of the engine in memory: an index of three objects, the
-- record of one of them due.
use vfront.Common.{
  Str, List, [], ◌∷◌, ◌++◌, true, false, none, some, pos, ok, ◌≡◌, refl, codes, str_eq, arith,
}
use vfront.Common.Digits.{digits, value, lex_lt}
use vfront.Tests.Memory.{memory, raw_cbor}
use vfront.Tests.StoreRuns.{limits}
use vfront.Store.Codec.{pack_q, unpack_q}
use vfront.Store.Txn.{decode_raw_value, is_due}
use vfront.Store.Pages.{Entry, list_page}
use vfront.Store.Pages.Place.{is_ascending}
use vfront.Store.Pages.Page.{live, list_page_lem}
use vfront.Listing.{Source, list_created_at_models}
use vfront.Listing.Stored.{StandFor, nothing_left, no_match, matching, from_first}
use vfront.Listing.Scan.{list_created_at_models_lem}
use vfront.Listing.OnStore.{on_store, on_store-IsPaged}

abbrev entries : List Entry
entries =
    (codes "1", pack_q 0 ++ codes "a")
    ∷ (codes "2", pack_q 7 ++ codes "b")
    ∷ (codes "3", pack_q 0 ++ codes "c")
    ∷ []

abbrev shown : List (Str × Str)
shown = (codes "1", codes "a") ∷ (codes "3", codes "c") ∷ []

ascending : is_ascending entries ≡ true
unfolding lex_lt
ascending = refl

all_live : live raw_cbor limits memory 1000000000 entries ≡ ok shown
unfolding live decode_raw_value unpack_q pack_q is_due value digits
all_live = refl

list_page_lem_example :
    list_page raw_cbor limits memory 1000000000 entries (some (codes "4")) 1 true
    ≡ ok ((codes "3", codes "c") ∷ [], true)
unfolding lex_lt
list_page_lem_example =
    list_page_lem raw_cbor limits memory 1000000000 entries (some (codes "4")) 1 true ascending
      all_live

-- Each object is stored under its id, which is its value as well.
abbrev objects : Source Str Str
objects = record {
  get = λ id. ok (some id);
  list_page = λ after limit reversed. ok ([], false);
  to_str = λ id. id;
  model_validate = λ id. ok id;
  object_id = λ id. id;
  time = λ id. pos 5;
  predicate = λ id. str_eq id (codes "c");
}

abbrev source : Source Str Str
source = on_store raw_cbor limits memory 1000000000 entries objects

-- The first object does not match, and the second one does.
found_second : StandFor source shown (codes "c" ∷ [])
unfolding on_store str_eq
found_second = no_match refl refl refl (matching refl refl refl nothing_left)

list_created_at_models_lem_example :
    list_created_at_models source 3 1 none false ≡ some (ok (codes "c" ∷ [], false))
list_created_at_models_lem_example =
    list_created_at_models_lem source shown 3 1 none none false (codes "c" ∷ [])
      (on_store-IsPaged raw_cbor limits memory 1000000000 entries objects ascending all_live)
      from_first found_second (omega arith)
