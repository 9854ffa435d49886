-- ===== src/Modes/Values.antt =====
-- server/mode_config.py: what it reads of a YAML value. A mapping has texts as keys, each once. A number,
-- int or float, is an `F`; `Builtins` is what the file uses of Python on numbers, texts and paths.
use stability_toys.Prelude.{
  String, Bool, true, false, not, List, [], ◌∷◌, Option, none, some, ite, same_text, ◌≡◌, refl, ap,
}
use stability_toys.Prelude.Dict.{Dict, lookup}
use stability_toys.Prelude.Effects.{Result, ok, raised}
use stability_toys.Prelude.Outcome.{◌>>=◌}
use stability_toys.Analysis.Json.{
  Json, Items, Members, null, boolean, number, text, array, object, nil, cons, end, member, items,
}

-- The errors by what raises them; `wrong_type` is a TypeError or an AttributeError.
pub data ModeError : Type 0 where
  unreadable empty_file no_default_set unknown_key wrong_type no_such_key unconfigured
        not_supported :
      ModeError
  missing malformed removed_field invalid unknown_reference kind_mismatch : String → ModeError

abbrev pub Parsed : Type 0 → Type 0
Parsed A = Result ModeError A

pub record Builtins (F : Type 0) : Type 0 where
  -- `s.strip()`, `str(v)` of what is no text, `list(s)` of a text
  pub strip : String → String
  pub show : Json F → String
  pub characters : String → List String
  -- `int(v)`, `float(v)`, and `==`; `none` is a TypeError or a ValueError
  pub int_of : Json F → Option F
  pub float_of : Json F → Option F
  pub equals : Json F → Json F → Bool
  -- `isinstance(x, int)`, `not x`, `x > 0` and `x >= 0`
  pub is_int : F → Bool
  pub is_zero : F → Bool
  pub is_positive : F → Bool
  pub is_not_negative : F → Bool
  -- What YAML reads after `yaml.dump(v)`; `none` is no YAML
  pub reread : Json F → Option (Json F)
  -- `Path(p).expanduser()`, `p / q` and `Path(p).stem`
  pub expand : String → String
  pub join : String → String → String
  pub stem : String → String
  pub concat : String → String → String
  -- The numbers that stand in the source: 0, 4, 1024, 0.0, 0.7, 1.0 and 2.0
  pub no_attachments : F
  pub four_steps : F
  pub default_tokens : F
  pub zero_strength : F
  pub default_temperature : F
  pub full_strength : F
  pub double_strength : F

abbrev pub is_name : String → String → Bool
is_name s t = ite (same_text s t) true false

abbrev pub is_blank : String → Bool
is_blank s = is_name s ""

abbrev pub unless_blank : String → Option String
unless_blank s = ite (same_text s "") none (some s)

module _ {F : Type 0} where
  abbrev pub entries : Members F → Dict (Json F)
  entries end = []
  entries (member k j ms) = (k, j) ∷ entries ms

  abbrev pub members : Dict (Json F) → Members F
  members [] = end
  members ((k, j) ∷ d) = member k j (members d)

  pub entries-members : (d : Dict (Json F)) → entries (members d) ≡ d
  entries-members [] = refl
  entries-members (e ∷ d) = ap (λ r. e ∷ r) (entries-members d)

  abbrev pub mapping_of : Dict (Json F) → Json F
  mapping_of d = object (members d)

  abbrev pub array_of : List (Json F) → Items F
  array_of [] = nil
  array_of (j ∷ js) = cons j (array_of js)

  -- `d.get(key)` and `d.get(key, default)`
  abbrev pub or_else : Json F → Option (Json F) → Json F
  or_else default none = default
  or_else default (some j) = j

  abbrev pub get_or : String → Json F → Dict (Json F) → Json F
  get_or key default d = or_else default (lookup key d)

  abbrev pub get_value : String → Dict (Json F) → Json F
  get_value key = get_or key null

  abbrev pub is_null : Json F → Bool
  is_null null = true
  is_null _ = false

  -- `d[key]`
  abbrev pub required : Option (Json F) → ModeError → Parsed (Json F)
  required none e = raised e
  required (some j) e = ok j

  -- A mapping, or an error
  abbrev pub mapping : ModeError → Json F → Parsed (Dict (Json F))
  mapping e (object ms) = ok (entries ms)
  mapping e _ = raised e

  -- `None` stands for the empty mapping.
  abbrev pub optional_mapping : ModeError → Json F → Parsed (Dict (Json F))
  optional_mapping e null = ok []
  optional_mapping e (object ms) = ok (entries ms)
  optional_mapping e _ = raised e

  abbrev pub sequence : ModeError → Json F → Parsed (List (Json F))
  sequence e (array js) = ok (items js)
  sequence e _ = raised e

  abbrev pub plain_text : ModeError → Json F → Parsed String
  plain_text e (text s) = ok s
  plain_text e _ = raised e

  -- `{k: parse(k, v) for k, v in d.items()}`
  unfoldable pub parse_all :
      {A : Type 0} → (String → Json F → Parsed A) → Dict (Json F) → Parsed (Dict A)
  parse_all parse [] = ok []
  parse_all parse ((k, j) ∷ d) = do a ← parse k j; rest ← parse_all parse d; ok ((k, a) ∷ rest)

-- `{k: write(v) for k, v in d.items()}`
abbrev pub map_values : {A B : Type 0} → (A → B) → Dict A → Dict B
map_values f [] = []
map_values f ((k, a) ∷ d) = (k, f a) ∷ map_values f d

module _ {F : Type 0} (py : Builtins F) where
  -- `bool(v)`
  unfoldable pub truthy : Json F → Bool
  truthy null = false
  truthy (boolean b) = b
  truthy (number x) = not (py.is_zero x)
  truthy (text s) = not (is_blank s)
  truthy (array nil) = false
  truthy (array (cons _ _)) = true
  truthy (object end) = false
  truthy (object (member _ _ _)) = true

  -- `v or default`
  abbrev pub or_default : Json F → Json F → Json F
  or_default j default = elim (truthy j) [ true ↦ j | false ↦ default ]

  -- `(v or default).strip()`
  unfoldable pub stripped : String → Json F → Parsed String
  stripped default j = plain_text wrong_type (or_default j (text default)) >>= λ s. ok (py.strip s)

  -- `str(v)`
  abbrev pub to_text : Json F → String
  to_text (text s) = s
  to_text j = py.show j

  -- `_normalize_optional_string`
  unfoldable pub normalize_optional_string : Json F → Option String
  normalize_optional_string null = none
  normalize_optional_string j = unless_blank (py.strip (to_text j))

  abbrev pub or_invalid : String → Option F → Parsed (Option F)
  or_invalid field none = raised (invalid field)
  or_invalid field (some x) = ok (some x)

  -- `_parse_optional_int` and `_parse_optional_float`
  unfoldable pub parse_optional_int : String → Json F → Parsed (Option F)
  parse_optional_int field null = ok none
  parse_optional_int field j = or_invalid field (py.int_of j)

  unfoldable pub parse_optional_float : String → Json F → Parsed (Option F)
  parse_optional_float field null = ok none
  parse_optional_float field j = or_invalid field (py.float_of j)
