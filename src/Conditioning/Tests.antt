-- ===== src/Conditioning/Tests.antt =====
-- A chain of a service with a fallback and two filters, and a cancelled invocation.
use stability_toys.Prelude.{ℕ, ◌+◌, String, true, false, [], ◌∷◌, some, ◌≡◌, refl, same_text}
use stability_toys.Prelude.Dict.{lookup}
use stability_toys.Prelude.Effects.{ok, raised}
use stability_toys.Conditioning.Invocation.{
  Invocation, completed, waiting, transforming, fallback, fall_back, result, cancel_invocation,
}
use stability_toys.Conditioning.Chain.{
  ModelContext, Service, Filter, ConditioningRegistry, ConditioningConfig, create_service,
  create_filter, with_fallback, filtered, reversed, add_filters, backed, build_conditioning_chain,
}
use stability_toys.Conditioning.Fallback.{stacked}

abbrev late : Invocation ℕ String
late =
    fallback (transforming (waiting (ok 1) "CancelledError") (λ a. ok (a + 1))) (completed (ok 9))
      false false

stays_cancelled : (result (cancel_invocation late).1).0 ≡ raised "CancelledError"
unfolding cancel_invocation result fall_back
stays_cancelled = refl

abbrev compel : Service ℕ ℕ ℕ String
compel = record {
  requires_bundle = true;
  invoke = λ r c. ok (waiting (raised "bad prompt") "CancelledError");
}

abbrev native : Service ℕ ℕ ℕ String
native = record { requires_bundle = false; invoke = λ r c. ok (completed (ok r)) }

-- Filters that add to the request.
abbrev adds : ℕ → Filter ℕ ℕ ℕ String
adds n r c next = next.invoke (r + n) c

abbrev registry : ConditioningRegistry ℕ ℕ ℕ String
registry = record {
  services = ("native", ok native) ∷ ("compel", ok compel) ∷ [];
  filters = ("one", ok (adds 1)) ∷ ("two", ok (adds 2)) ∷ [];
}

abbrev config : ConditioningConfig
config = record {
  service = some "compel";
  filter_names = "one" ∷ "two" ∷ [];
  native_when_unconfigured = true;
  native_on_failure = true;
}

abbrev context : ModelContext ℕ
context = record { descriptor = 0; has_bundle = true }

program : Unit {0}
unfolding lookup same_text create_service create_filter with_fallback filtered reversed add_filters
    backed build_conditioning_chain
program = tt

abbrev chain : Service ℕ ℕ ℕ String
chain = stacked registry (adds 1 ∷ adds 2 ∷ []) (with_fallback compel native)
