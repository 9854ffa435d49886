-- ===== src/Conditioning/Chain.antt =====
-- backends/conditioning/registry.py and contracts.py: services, filters and the chain that is built of them. A
-- service is a function of a request and a context to its invocation; it may raise. The native service
-- of a fallback is a function too, so that it does not matter when it is invoked.
use stability_toys.Prelude.{
  String, Bool, true, false, not, List, [], ◌∷◌, ◌++◌, Option, none, some, ◌&&◌, ite, same_text,
  if◌then◌else◌,
}
use stability_toys.Prelude.Dict.{Dict, lookup, insert, contains}
use stability_toys.Prelude.Effects.{Result, ok, raised}
use stability_toys.Prelude.Outcome.{◌>>=◌, ◌>>◌, refuse}
use stability_toys.Conditioning.Invocation.{Invocation, completed, fallback, unbacked}

-- `R` is `ConditioningRequest`, `C` what a context holds beside its bundle.
pub record ModelContext (C : Type 0) : Type 0 where
  pub descriptor : C
  pub has_bundle : Bool

pub record Service (R C A X : Type 0) : Type 0 where
  pub requires_bundle : Bool
  pub invoke : R → ModelContext C → Result X (Invocation A X)

abbrev pub Filter : Type 0 → Type 0 → Type 0 → Type 0 → Type 0
Filter R C A X = R → ModelContext C → Service R C A X → Result X (Invocation A X)

pub data ChainError (X : Type 0) : Type 0 where
  already_registered unknown_service unknown_filter service_required bundle_required : ChainError X
  factory_raised : X → ChainError X

-- What the factories return or raise.
pub record ConditioningRegistry (R C A X : Type 0) : Type 0 where
  pub services : Dict (Result X (Service R C A X))
  pub filters : Dict (Result X (Filter R C A X))

pub record ConditioningConfig : Type 0 where
  pub service : Option String
  pub filter_names : List String
  pub native_when_unconfigured : Bool
  pub native_on_failure : Bool

abbrev pub is_name : String → String → Bool
is_name s t = ite (same_text s t) true false

-- `requires_configurable_worker`
unfoldable pub requires_configurable_worker : ConditioningConfig → Bool
requires_configurable_worker config = elim config.filter_names [
  | _ ∷ _ ↦ true
  | [] ↦ elim config.service [
    | none ↦ false
    | some s ↦ not (is_name s "") && not (is_name s "native")
  ]
]

-- The name of the service, native where there is none
abbrev pub service_name : {X : Type 0} → ConditioningConfig → Result (ChainError X) String
service_name config = elim config.service [
  | none ↦ refuse (not config.native_when_unconfigured) service_required >> ok "native"
  | some s ↦
      if is_name s ""
      then (refuse (not config.native_when_unconfigured) service_required >> ok "native")
      else ok s
]

abbrev pub made : {X T : Type 0} → Result X T → Result (ChainError X) T
made (ok t) = ok t
made (raised x) = raised (factory_raised x)

-- A primary that raises at once becomes a completed invocation.
abbrev pub invoked : {A X : Type 0} → Result X (Invocation A X) → Invocation A X
invoked (ok i) = i
invoked (raised x) = completed (raised x)

unfoldable pub reversed : List String → List String
reversed [] = []
reversed (n ∷ ns) = reversed ns ++ n ∷ []

module _ {R C A X : Type 0} where
  unfoldable pub register_service :
      String
      → Result X (Service R C A X)
      → ConditioningRegistry R C A X
      → Result (ChainError X) (ConditioningRegistry R C A X)
  register_service name factory registry =
      if contains name registry.services
      then raised already_registered
      else ok (record registry { services = insert name factory registry.services })

  unfoldable pub register_filter :
      String
      → Result X (Filter R C A X)
      → ConditioningRegistry R C A X
      → Result (ChainError X) (ConditioningRegistry R C A X)
  register_filter name factory registry =
      if contains name registry.filters
      then raised already_registered
      else ok (record registry { filters = insert name factory registry.filters })

  unfoldable pub create_service :
      ConditioningRegistry R C A X → String → Result (ChainError X) (Service R C A X)
  create_service registry name = elim (lookup name registry.services) [
    | none ↦ raised unknown_service
    | some f ↦ made f
  ]

  unfoldable pub create_filter :
      ConditioningRegistry R C A X → String → Result (ChainError X) (Filter R C A X)
  create_filter registry name = elim (lookup name registry.filters) [
    | none ↦ raised unknown_filter
    | some f ↦ made f
  ]

  -- `_FallbackConditioningService`
  unfoldable pub with_fallback : Service R C A X → Service R C A X → Service R C A X
  with_fallback primary native = record {
    requires_bundle = primary.requires_bundle;
    invoke = λ r c. elim (native.invoke r c) [
      | ok n ↦ ok (fallback (invoked (primary.invoke r c)) n false false)
      | raised x ↦ ok (unbacked (invoked (primary.invoke r c)) x false)
    ];
  }

  -- `_FilteredConditioningService`
  unfoldable pub filtered : Filter R C A X → Service R C A X → Service R C A X
  filtered f next = record { requires_bundle = next.requires_bundle; invoke = λ r c. f r c next }

  -- `for filter_name in reversed(config.filters)`
  unfoldable pub add_filters :
      ConditioningRegistry R C A X
      → List String
      → Service R C A X
      → Result (ChainError X) (Service R C A X)
  add_filters registry [] service = ok service
  add_filters registry (n ∷ ns) service = do
    f ← create_filter registry n
    add_filters registry ns (filtered f service)

  -- The service, with its fallback where one is configured
  unfoldable pub backed :
      ConditioningConfig
      → ConditioningRegistry R C A X
      → String
      → Service R C A X
      → Result (ChainError X) (Service R C A X)
  backed config registry name service =
      if config.native_on_failure && not (is_name name "native")
      then (create_service registry "native" >>= λ native. ok (with_fallback service native))
      else ok service

  -- `build_conditioning_chain`; the chain invokes its service.
  unfoldable pub build_conditioning_chain :
      ConditioningConfig
      → ModelContext C
      → ConditioningRegistry R C A X
      → Result (ChainError X) (Service R C A X)
  build_conditioning_chain config context registry = do
    name ← service_name config
    service ← create_service registry name
    refuse (service.requires_bundle && not context.has_bundle) bundle_required
    base ← backed config registry name service
    add_filters registry (reversed config.filter_names) base
