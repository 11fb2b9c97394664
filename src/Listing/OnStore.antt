-- ===== src/Listing/OnStore.antt =====
-- The pages of the listing are those of the key-value store.
use vfront.Common.{ℕ, Str, List, ok, ◌≡◌, true}
use vfront.Store.Lmdb.{Lmdb, Cbor}
use vfront.Store.Txn.{Config}
use vfront.Store.Pages.{Entry, list_page}
use vfront.Store.Pages.Place.{is_ascending}
use vfront.Store.Pages.Page.{live, live-is_ascending, list_page_lem}
use vfront.Listing.{Source}
use vfront.Listing.Scan.{IsPaged}

module _ (C : Cbor) (cfg : Config) (L : Lmdb) (now : ℕ) (entries : List Entry) where
  -- A source whose index is a database of the store, at one time.
  unfoldable pub on_store : {T : Type 0} → Source C.Value T → Source C.Value T
  on_store S = record S { list_page = list_page C cfg L now entries }

  -- The store keeps the promise of the pages.
  pub on_store-IsPaged :
      {T : Type 0} (S : Source C.Value T) {shown : List (Str × C.Value)}
      → is_ascending entries ≡ true
      → live C cfg L now entries ≡ ok shown
      → IsPaged (on_store S) shown
  unfolding on_store
  on_store-IsPaged S h p = record {
    order = live-is_ascending C cfg L now entries h p;
    paged = λ after limit reversed. list_page_lem C cfg L now entries after limit reversed h p;
  }
