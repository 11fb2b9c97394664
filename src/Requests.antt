-- ===== src/Requests.antt =====
-- Requests as the routes check them: compat/validators.py.
pub mod Json
pub mod Checks
pub mod Chat
pub mod Completions
