-- ===== src/Store.antt =====
-- The key-value store, vfront/frontend/service/store/lmdb.py.
pub mod Lmdb
pub mod Codec
pub mod Txn
pub mod Cleanup
pub mod Checks
pub mod Pages
pub mod Service
pub mod Lifecycle
