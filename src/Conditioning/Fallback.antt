-- ===== src/Conditioning/Fallback.antt =====
-- backends/conditioning/registry.py: what a chain that was built consists of.
use stability_toys.Prelude.{String, true, false, not, List, [], ◌∷◌, ◌≡◌, ◌⊎◌, ◌&&◌}
use stability_toys.Prelude.Effects.{ok}
use stability_toys.Conditioning.Chain.{
  Service, Filter, ConditioningRegistry, ConditioningConfig, is_name, create_service, create_filter,
  with_fallback, filtered,
}

module _ {R C A X : Type 0} (registry : ConditioningRegistry R C A X) where
  -- The filters of the names, in their order.
  abbrev pub AllCreated : List String → List (Filter R C A X) → Type 0
  AllCreated [] [] = Unit
  AllCreated (n ∷ ns) (f ∷ fs) = (create_filter registry n ≡ ok f) × AllCreated ns fs
  AllCreated (n ∷ ns) [] = ⊥
  AllCreated [] (f ∷ fs) = ⊥

  -- The first filter is the outermost.
  abbrev pub stacked : List (Filter R C A X) → Service R C A X → Service R C A X
  stacked [] s = s
  stacked (f ∷ fs) s = filtered f (stacked fs s)

  -- The service itself, or where the configuration asks for it and the service is not the native
  -- one, the service with a fallback to that.
  abbrev pub IsBase : ConditioningConfig → String → Service R C A X → Service R C A X → Type 0
  IsBase config name primary base =
      ((config.native_on_failure && not (is_name name "native")) ≡ false × (base ≡ primary))
      ⊎ ((native : Service R C A X) × ((config.native_on_failure && not (is_name name "native"))
            ≡ true)
          × (create_service registry "native" ≡ ok native)
          × (base ≡ with_fallback primary native))
