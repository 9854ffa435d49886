-- ===== src/Modes/Written.antt =====
-- The entries of the sections on analysis, as `save_config` writes and `_load_config` reads them.
use stability_toys.Prelude.{
  String, false, [], ◌∷◌, ◌++◌, Option, none, some, ◌≡◌, refl, arith, same_text, ite, ap,
}
use stability_toys.Prelude.Dict.{Dict, lookup, AllItems}
use stability_toys.Prelude.Effects.{ok}
use stability_toys.Prelude.Outcome.{returned}
use stability_toys.Analysis.Json.{Json, text}
use stability_toys.Modes.Values.{
  Parsed, Builtins, parse_all, map_values, mapping_of, get_value, truthy, is_blank, stripped,
  or_default, plain_text, wrong_type, entries-members,
}
use stability_toys.Modes.Sections.{required_text, section}
use stability_toys.Modes.Save.{section_entry}

module _ {F A : Type 0} (parse : String → Json F → Parsed A) (write : A → Json F)
    (P : String → A → Type 0) where
  pub parse_all-map :
      ((k : String) (a : A) → P k a → parse k (write a) ≡ ok a)
      → (d : Dict A) → AllItems P d
      → parse_all parse (map_values write d) ≡ ok d
  unfolding parse_all
  parse_all-map each [] h = refl
  parse_all-map each ((k, a) ∷ d) h = ground (arith, each k a h.0, parse_all-map each d h.1)

abbrev pub first : {V : Type 0} → Option V → Option V → Option V
first none o = o
first (some v) o = some v

module _ {F : Type 0} where
  -- How a section that was written is found
  abbrev pub written : {A : Type 0} → (A → Json F) → Dict A → Option (Json F)
  written write [] = none
  written write ((k, a) ∷ d) = some (mapping_of (map_values write ((k, a) ∷ d)))

  pub lookup-section_entry :
      {A : Type 0} (k key : String) (write : A → Json F) (d : Dict A) (rest : Dict (Json F))
      → lookup k (section_entry key write d ++ rest)
        ≡ first (ite (same_text key k) (written write d) none) (lookup k rest)
  unfolding lookup
  lookup-section_entry k key write [] rest = ground arith
  lookup-section_entry k key write (e ∷ d) rest = ground arith

  pub lookup-last_entry :
      {A : Type 0} (k key : String) (write : A → Json F) (d : Dict A)
      → lookup k (section_entry key write d) ≡ ite (same_text key k) (written write d) none
  unfolding lookup
  lookup-last_entry k key write [] = ground arith
  lookup-last_entry k key write (e ∷ d) = ground arith

  pub section-section_entry :
      {A : Type 0} (py : Builtins F) (key : String) (write : A → Json F) (d : Dict A)
      (doc : Dict (Json F))
      → lookup key doc ≡ written write d
      → section py key doc ≡ ok (map_values write d)
  unfolding section truthy
  section-section_entry py key write [] doc h = rw h refl
  section-section_entry py key write ((k, a) ∷ d) doc h =
      rw h (ap ok (entries-members ((k, write a) ∷ map_values write d)))

module _ {F : Type 0} (py : Builtins F)
    (stripped_once : (s : String) → py.strip (py.strip s) ≡ py.strip s) where
  abbrev pub IsWord : String → Type 0
  IsWord s = (py.strip s ≡ s) × (is_blank s ≡ false)

  pub stripped-fixed :
      (default : String) (j : Json F) {s : String} → stripped py default j ≡ ok s → py.strip s ≡ s
  unfolding stripped
  stripped-fixed default j {s} h =
      let (t, _, e) = returned (plain_text wrong_type (or_default py j (text default))) _ h in
      ground (arith, stripped_once t)

  pub required_text-IsWord :
      (key : String) (raw : Dict (Json F)) {s : String} → required_text py key raw ≡ ok s → IsWord s
  unfolding required_text
  required_text-IsWord key raw {s} h =
      let (t, e, h1) = returned (stripped py "" (get_value key raw)) _ h in
      ground (arith, stripped-fixed "" (get_value key raw) e)

  pub stripped_word : (default s : String) → IsWord s → stripped py default (text s) ≡ ok s
  unfolding stripped truthy
  stripped_word default s w = ground arith

  pub required_word :
      (key s : String) (raw : Dict (Json F))
      → IsWord s
      → get_value key raw ≡ text s
      → required_text py key raw ≡ ok s
  unfolding required_text
  required_word key s raw w e = ground (arith, stripped_word "" s w)
