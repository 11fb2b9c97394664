-- ===== src/Models.antt =====
-- Which models there are: the public routes of shared/engine/model_registry.py, and the adapters of
-- engine/service/lora_manager.py.
pub mod Registry
pub mod Adapters
pub mod Engines
