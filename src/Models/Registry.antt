-- ===== src/Models/Registry.antt =====
-- shared/engine/model_registry.py: the public names that the settings declare, and what they stand
-- for.
pub mod Resolve
use vfront.Common.{
  Str, List, [], ◌∷◌, ◌++◌, map, Bool, true, false, Option, none, some, str_eq, if◌then◌else◌,
}

-- `_HasRoutingModel`: a model as the settings declare it
pub record RoutingModel : Type 0 where
  pub name : Str
  pub backend : Str
  pub runtime_model : Str
  pub adapter : Option Str
  pub capabilities : List Str
  pub tool_parser : Option Str

pub record BaseModelSpec : Type 0 where
  pub name : Str
  pub backend : Str
  pub runtime_model : Str
  pub capabilities : List Str
  pub tool_parser : Option Str

pub record LoraModelSpec : Type 0 where
  pub name : Str
  pub backend : Str
  pub runtime_model : Str
  pub adapter : Str
  pub capabilities : List Str
  pub tool_parser : Option Str

pub data ModelSpec : Type 0 where
  base : BaseModelSpec → ModelSpec
  lora : LoraModelSpec → ModelSpec

pub record ResolvedModelTarget : Type 0 where
  pub requested_model : Str
  pub public_name : Str
  pub backend : Str
  pub runtime_model : Str
  pub adapter : Option Str
  pub tool_parser : Option Str

pub record ModelRegistry : Type 0 where
  pub base_models : List BaseModelSpec
  pub lora_models : List LoraModelSpec

abbrev pub base_spec : RoutingModel → BaseModelSpec
base_spec m = record {
  name = m.name;
  backend = m.backend;
  runtime_model = m.runtime_model;
  capabilities = m.capabilities;
  tool_parser = m.tool_parser;
}

abbrev pub lora_spec : RoutingModel → Str → LoraModelSpec
lora_spec m adapter = record {
  name = m.name;
  backend = m.backend;
  runtime_model = m.runtime_model;
  adapter = adapter;
  capabilities = m.capabilities;
  tool_parser = m.tool_parser;
}

-- One round of the loop of `from_settings`.
abbrev pub declare : RoutingModel → Option Str → ModelRegistry → ModelRegistry
declare m none r = record r { base_models = base_spec m ∷ r.base_models }
declare m (some adapter) r = record r { lora_models = lora_spec m adapter ∷ r.lora_models }

unfoldable pub from_settings : List RoutingModel → ModelRegistry
from_settings [] = record { base_models = []; lora_models = [] }
from_settings (m ∷ l) = declare m m.adapter (from_settings l)

unfoldable pub find_base : List BaseModelSpec → Str → Option BaseModelSpec
find_base [] name = none
find_base (s ∷ l) name = if str_eq s.name name then some s else find_base l name

unfoldable pub find_lora : List LoraModelSpec → Str → Option LoraModelSpec
find_lora [] name = none
find_lora (s ∷ l) name = if str_eq s.name name then some s else find_lora l name

-- Base models come before adapters.
unfoldable pub get : ModelRegistry → Str → Option ModelSpec
get r name = elim (find_base r.base_models name) [
  | some s ↦ some (base s)
  | none ↦ elim (find_lora r.lora_models name) [ some s ↦ some (lora s) | none ↦ none ]
]

unfoldable pub list_all : ModelRegistry → List ModelSpec
list_all r = map base r.base_models ++ map lora r.lora_models

abbrev pub target : Str → ModelSpec → ResolvedModelTarget
target name (base s) = record {
  requested_model = name;
  public_name = s.name;
  backend = s.backend;
  runtime_model = s.runtime_model;
  adapter = none;
  tool_parser = s.tool_parser;
}
target name (lora s) = record {
  requested_model = name;
  public_name = s.name;
  backend = s.backend;
  runtime_model = s.runtime_model;
  adapter = some s.adapter;
  tool_parser = s.tool_parser;
}

unfoldable pub resolve : ModelRegistry → Str → Option ResolvedModelTarget
resolve r name = elim (get r name) [ none ↦ none | some spec ↦ some (target name spec) ]
