-- ===== src/Analysis/Json.antt =====
-- A value parsed from JSON, as backends/analysis/contracts.py gets it, and the tests that it makes of one.
use stability_toys.Prelude.{
  String, Bool, true, false, List, [], ◌∷◌, Option, none, some, ite, same_text,
}
use stability_toys.Prelude.Effects.{Result, ok, raised}
use stability_toys.Prelude.Outcome.{◌>>=◌}
use stability_toys.Analysis.Contracts.{AnalysisError, invalid_request, is_empty}

mutual
  pub data Json (F : Type 0) : Type 0 where
    null : Json F
    boolean : Bool → Json F
    number : F → Json F
    text : String → Json F
    array : Items F → Json F
    object : Members F → Json F

  pub data Items (F : Type 0) : Type 0 where
    nil : Items F
    cons : Json F → Items F → Items F

  pub data Members (F : Type 0) : Type 0 where
    end : Members F
    member : String → Json F → Members F → Members F

abbrev pub Checked : Type 0 → Type 0
Checked A = Result AnalysisError A

module _ {F : Type 0} where
  abbrev pub items : Items F → List (Json F)
  items nil = []
  items (cons j js) = j ∷ items js

  -- `raw.get(key)`
  unfoldable pub get_key : String → Members F → Json F
  get_key key end = null
  get_key key (member k j ms) = ite (same_text k key) j (get_key key ms)

  abbrev pub is_null : Json F → Bool
  is_null null = true
  is_null _ = false

  -- `if not isinstance(raw, Mapping): raise`
  abbrev pub as_object : Json F → Checked (Members F)
  as_object (object ms) = ok ms
  as_object _ = raised invalid_request

  -- `if isinstance(raw, str) or not isinstance(raw, (list, tuple)): raise`
  abbrev pub as_list : Json F → Checked (List (Json F))
  as_list (array js) = ok (items js)
  as_list _ = raised invalid_request

  -- `_require_str`
  abbrev pub require_str : Json F → Checked String
  require_str (text s) = ok s
  require_str _ = raised invalid_request

  -- `_optional_str`
  abbrev pub optional_str : Json F → Checked (Option String)
  optional_str null = ok none
  optional_str (text s) = ok (some s)
  optional_str _ = raised invalid_request

  -- `tuple(_require_str(v) for v in values)`
  unfoldable pub require_strs : List (Json F) → Checked (List String)
  require_strs [] = ok []
  require_strs (j ∷ js) = require_str j >>= λ s. require_strs js >>= λ ss. ok (s ∷ ss)

  -- `raw or []`, with Python's falsy values
  abbrev pub or_no_items : (F → Bool) → Json F → Json F
  or_no_items is_zero null = array nil
  or_no_items is_zero (boolean false) = array nil
  or_no_items is_zero (boolean true) = boolean true
  or_no_items is_zero (number x) = elim (is_zero x) [ true ↦ array nil | false ↦ number x ]
  or_no_items is_zero (text s) = elim (is_empty s) [ true ↦ array nil | false ↦ text s ]
  or_no_items is_zero (array js) = array js
  or_no_items is_zero (object end) = array nil
  or_no_items is_zero (object ms) = object ms
