-- ===== src/Models/Registry/Resolve.antt =====
-- What a declared name resolves to.
use vfront.Common.{
  Str, List, [], ◌∷◌, ◌++◌, Bool, true, false, not, Option, none, some, ◌≡◌, refl, str_eq,
  str_eq_self, all, arith,
}
use vfront.Models.Registry.{
  RoutingModel, ResolvedModelTarget, ModelRegistry, declare, from_settings, find_base, find_lora,
  get, resolve,
}

-- What the settings say of a model.
abbrev pub declared : RoutingModel → ResolvedModelTarget
declared m = record {
  requested_model = m.name;
  public_name = m.name;
  backend = m.backend;
  runtime_model = m.runtime_model;
  adapter = m.adapter;
  tool_parser = m.tool_parser;
}

abbrev pub is_unnamed : Str → List RoutingModel → Bool
is_unnamed name l = all (λ m. not (str_eq m.name name)) l

module _ (name : Str) where
  find-declare_other :
      (m : RoutingModel) (a : Option Str) (r : ModelRegistry)
      → str_eq m.name name ≡ false
      → (find_base (declare m a r).base_models name ≡ find_base r.base_models name)
        × (find_lora (declare m a r).lora_models name ≡ find_lora r.lora_models name)
  unfolding find_base find_lora
  find-declare_other m none r other = (rw other, refl)
  find-declare_other m (some a) r other = (refl, rw other)

  -- A name that no model has is found in neither list.
  find_nothing :
      (l : List RoutingModel)
      → is_unnamed name l ≡ true
      → (find_base (from_settings l).base_models name ≡ none)
        × (find_lora (from_settings l).lora_models name ≡ none)
  unfolding from_settings find_base find_lora
  find_nothing [] h = (refl, refl)
  find_nothing (m ∷ l) h =
      let other : str_eq m.name name ≡ false = ground arith in
      let (p, q) = find-declare_other m m.adapter (from_settings l) other in
      let (p', q') = find_nothing l (ground arith) in (rw p p', rw q q')

  same_found :
      (r r' : ModelRegistry)
      → (find_base r.base_models name ≡ find_base r'.base_models name)
        × (find_lora r.lora_models name ≡ find_lora r'.lora_models name)
      → resolve r name ≡ resolve r' name
  unfolding resolve get
  same_found r r' (p, q) = ground arith

  resolve-declare_other :
      (m : RoutingModel) (l : List RoutingModel)
      → str_eq m.name name ≡ false
      → resolve (from_settings (m ∷ l)) name ≡ resolve (from_settings l) name
  unfolding from_settings resolve get
  resolve-declare_other m l other =
      same_found _ (from_settings l) (find-declare_other m m.adapter (from_settings l) other)

resolve-declare :
    (m : RoutingModel) (l : List RoutingModel)
    → is_unnamed m.name l ≡ true
    → resolve (from_settings (m ∷ l)) m.name ≡ some (declared m)
unfolding from_settings resolve get find_base find_lora
resolve-declare m l h = by_adapter m.adapter refl
  where
    by_adapter :
        (a : Option Str)
        → m.adapter ≡ a
        → resolve (declare m m.adapter (from_settings l)) m.name ≡ some (declared m)
    by_adapter none e = rw e (rw (str_eq_self m.name, resolve, get, find_base))
    by_adapter (some a) e =
        rw e (rw ((find_nothing m.name l h).0, str_eq_self m.name, resolve, get, find_lora))

-- A declared model resolves to its own backend, runtime model, adapter and tool parser, wherever it
-- stands in the settings, if no other model there has its name.
pub resolve-from_settings :
    (before behind : List RoutingModel) (m : RoutingModel)
    → is_unnamed m.name before ≡ true
    → is_unnamed m.name behind ≡ true
    → resolve (from_settings (before ++ m ∷ behind)) m.name ≡ some (declared m)
resolve-from_settings [] behind m h k = resolve-declare m behind k
resolve-from_settings (x ∷ before) behind m h k =
    rw (resolve-declare_other m.name x (before ++ m ∷ behind) (ground arith))
      (resolve-from_settings before behind m (ground arith) k)

-- A name that no declared model has does not resolve.
pub resolve_unnamed :
    (l : List RoutingModel) (name : Str)
    → is_unnamed name l ≡ true
    → resolve (from_settings l) name ≡ none
unfolding resolve get
resolve_unnamed l name h = let (p, q) = find_nothing name l h in rw (resolve, get, p, q)
