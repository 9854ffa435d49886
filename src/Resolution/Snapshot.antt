-- ===== src/Resolution/Snapshot.antt =====
-- backends/model_resolution.py: what the detector finds, frozen, and its wire form. A value that Python
-- holds is a `Value`, one of the wire a `Json`; `is_finite` tells the floats that JSON can hold.
use stability_toys.Prelude.{
  ℕ, String, Bool, not, List, [], ◌∷◌, map, Option, none, some, same_text, ite,
}
use stability_toys.Prelude.Dict.{Dict, lookup}
use stability_toys.Prelude.Effects.{Result, ok, raised}
use stability_toys.Prelude.Outcome.{◌>>=◌, ◌>>◌, refuse}
use stability_toys.Analysis.Json.{
  Json, Items, Members, null, boolean, number, text, array, object, nil, cons, end, member, items,
}
use stability_toys.Modes.Values.{entries, mapping_of, array_of}
use stability_toys.Families.Profiles.{ModelInfo as DetectedFamily, FamilyError}

pub data ResolutionError : Type 0 where
  not_finite bad_key not_json missing_keys no_such_key wrong_type symlink weak_identity
        bad_version :
      ResolutionError
  id_mismatch unknown_profile profile_differs : ResolutionError
  family : FamilyError → ResolutionError

abbrev pub Resolved : Type 0 → Type 0
Resolved A = Result ResolutionError A

mutual
  pub data Value (F : Type 0) : Type 0 where
    none_value : Value F
    flag : Bool → Value F
    num : F → Value F
    str : String → Value F
    sequence : Values F → Value F
    mapping : Pairs F → Value F
    -- What is of none of these types
    other : Value F

  pub data Values (F : Type 0) : Type 0 where
    no_values : Values F
    value : Value F → Values F → Values F

  pub data Pairs (F : Type 0) : Type 0 where
    no_pairs : Pairs F
    -- `none` is a key that is no text.
    pair : Option String → Value F → Pairs F → Pairs F

module _ {F : Type 0} (is_finite : F → Bool) where
  -- `_assert_json_safe`, with the value that it lets through
  unfoldable mutual
    pub assert_json_safe : Value F → Resolved (Json F)
    assert_json_safe none_value = ok null
    assert_json_safe (flag b) = ok (boolean b)
    assert_json_safe (num x) = refuse (not (is_finite x)) not_finite >> ok (number x)
    assert_json_safe (str s) = ok (text s)
    assert_json_safe (sequence vs) = assert_items vs >>= λ js. ok (array js)
    assert_json_safe (mapping ps) = assert_members ps >>= λ ms. ok (object ms)
    assert_json_safe other = raised not_json

    pub assert_items : Values F → Resolved (Items F)
    assert_items no_values = ok nil
    assert_items (value v vs) = assert_json_safe v >>= λ j. assert_items vs >>= λ js. ok (cons j js)

    pub assert_members : Pairs F → Resolved (Members F)
    assert_members no_pairs = ok end
    assert_members (pair none v ps) = raised bad_key
    assert_members (pair (some k) v ps) =
        assert_json_safe v >>= λ j. assert_members ps >>= λ ms. ok (member k j ms)

  -- `_freeze_mapping`, of a mapping that the detector made, up to what the wire tells apart: a tuple
  -- and a list in it are one array.
  unfoldable pub freeze_mapping : Pairs F → Resolved (Dict (Json F))
  freeze_mapping ps = assert_members ps >>= λ ms. ok (entries ms)

  -- `_assert_json_safe` of a value from the wire, of which only a number may be unsafe
  unfoldable mutual
    pub check_json : Json F → Resolved (Unit {0})
    check_json null = ok tt
    check_json (boolean b) = ok tt
    check_json (number x) = refuse (not (is_finite x)) not_finite
    check_json (text s) = ok tt
    check_json (array js) = check_items js
    check_json (object ms) = check_members ms

    pub check_items : Items F → Resolved (Unit {0})
    check_items nil = ok tt
    check_items (cons j js) = check_json j >> check_items js

    pub check_members : Members F → Resolved (Unit {0})
    check_members end = ok tt
    check_members (member k j ms) = check_json j >> check_members ms

-- The fields that are carried over, by name
unfoldable pub scalar_snapshot_fields : List String
scalar_snapshot_fields =
    "cross_attention_dim" ∷ "text_encoder_hidden_size" ∷ "text_encoder_2_hidden_size"
    ∷ "unet_in_channels" ∷ "unet_out_channels" ∷ "vae_latent_channels" ∷ "format" ∷ "is_lora"
    ∷ "confidence" ∷ "loader_format" ∷ "checkpoint_precision" ∷ "checkpoint_variant"
    ∷ "scheduler_profile" ∷ "recommended_size" ∷ "runtime_quantize" ∷ "runtime_offload"
    ∷ "runtime_attention_slicing" ∷ "runtime_enable_xformers" ∷ "default_negative_prompt_template"
    ∷ "allow_custom_negative_prompt" ∷ "default_scheduler_id" ∷ "compatible_worker"
    ∷ "required_cross_attention_dim" ∷ "base_arch" ∷ "transformer_kind" ∷ []

-- utils/model_detector.py, `ModelInfo`: what the families are told by, and the other scalars by name
pub record ModelInfo (F : Type 0) : Type 0 where
  pub family : DetectedFamily
  pub variant : String
  pub detected_by : List String
  pub metadata : Pairs F
  pub negative_prompt_templates : Pairs F
  pub allowed_scheduler_ids : Option (List (Json F))
  pub scalars : String → Json F

-- A snapshot that was read from the wire holds what stood there.
pub record ModelInfoSnapshot (F : Type 0) : Type 0 where
  pub variant : Json F
  pub detected_by : List (Json F)
  pub metadata : Dict (Json F)
  pub negative_prompt_templates : Dict (Json F)
  pub allowed_scheduler_ids : Option (List (Json F))
  pub scalars : Dict (Json F)

abbrev pub optional_number : {F : Type 0} → (ℕ → F) → Option ℕ → Json F
optional_number of_nat none = null
optional_number of_nat (some n) = number (of_nat n)

abbrev pub optional_string : {F : Type 0} → Option String → Json F
optional_string none = null
optional_string (some s) = text s

module _ {F : Type 0} (of_nat : ℕ → F) where
  -- `getattr(info, name)`
  unfoldable pub attribute : ModelInfo F → String → Json F
  attribute info name =
      ite (same_text name "cross_attention_dim")
        (optional_number of_nat info.family.cross_attention_dim)
        (ite (same_text name "base_arch") (text info.family.base_arch) (
          ite (same_text name "transformer_kind") (optional_string info.family.transformer_kind)
            (info.scalars name)))

  unfoldable pub attributes : ModelInfo F → List String → Dict (Json F)
  attributes info [] = []
  attributes info (name ∷ names) = (name, attribute info name) ∷ attributes info names

  -- `freeze_model_info`
  unfoldable pub freeze_model_info : (F → Bool) → ModelInfo F → Resolved (ModelInfoSnapshot F)
  freeze_model_info is_finite info = do
    metadata ← freeze_mapping is_finite info.metadata
    templates ← freeze_mapping is_finite info.negative_prompt_templates
    ok (record {
      variant = text info.variant;
      detected_by = map text info.detected_by;
      metadata = metadata;
      negative_prompt_templates = templates;
      allowed_scheduler_ids = info.allowed_scheduler_ids;
      scalars = attributes info scalar_snapshot_fields;
    })

module _ {F : Type 0} where
  abbrev pub optional_array : Option (List (Json F)) → Json F
  optional_array none = null
  optional_array (some js) = array (array_of js)

  -- `snapshot_to_json_dict`
  unfoldable pub snapshot_to_json_dict : ModelInfoSnapshot F → Dict (Json F)
  snapshot_to_json_dict s =
      ("variant", s.variant)
      ∷ ("detected_by", array (array_of s.detected_by))
      ∷ ("metadata", mapping_of s.metadata)
      ∷ ("negative_prompt_templates", mapping_of s.negative_prompt_templates)
      ∷ ("allowed_scheduler_ids", optional_array s.allowed_scheduler_ids)
      ∷ s.scalars

  -- `tuple(v)`; a text or a mapping on the wire is a `wrong_type` here.
  abbrev pub as_tuple : Json F → Resolved (List (Json F))
  as_tuple (array js) = ok (items js)
  as_tuple _ = raised wrong_type

  abbrev pub optional_tuple : Json F → Resolved (Option (List (Json F)))
  optional_tuple null = ok none
  optional_tuple j = as_tuple j >>= λ js. ok (some js)

  abbrev pub at_key : Option (Json F) → ResolutionError → Resolved (Json F)
  at_key none e = raised e
  at_key (some j) e = ok j

  -- `_freeze_mapping`, of a value from the wire
  abbrev pub frozen : (F → Bool) → Json F → Resolved (Dict (Json F))
  frozen is_finite (object ms) = check_members is_finite ms >> ok (entries ms)
  frozen is_finite j = check_json is_finite j >> raised wrong_type

  -- `{name: wire[name] for name in _SCALAR_SNAPSHOT_FIELDS}`; a missing key is told before.
  unfoldable pub take_keys : Dict (Json F) → List String → Resolved (Dict (Json F))
  take_keys wire [] = ok []
  take_keys wire (k ∷ ks) = do
    j ← at_key (lookup k wire) missing_keys
    rest ← take_keys wire ks
    ok ((k, j) ∷ rest)

  -- `snapshot_from_json_dict`
  unfoldable pub snapshot_from_json_dict :
      (F → Bool) → Dict (Json F) → Resolved (ModelInfoSnapshot F)
  snapshot_from_json_dict is_finite wire = do
    variant ← at_key (lookup "variant" wire) missing_keys
    detected ← at_key (lookup "detected_by" wire) missing_keys
    raw_metadata ← at_key (lookup "metadata" wire) missing_keys
    raw_templates ← at_key (lookup "negative_prompt_templates" wire) missing_keys
    allowed ← at_key (lookup "allowed_scheduler_ids" wire) missing_keys
    scalars ← take_keys wire scalar_snapshot_fields
    detected_by ← as_tuple detected
    metadata ← frozen is_finite raw_metadata
    templates ← frozen is_finite raw_templates
    allowed_ids ← optional_tuple allowed
    ok (record {
      variant = variant;
      detected_by = detected_by;
      metadata = metadata;
      negative_prompt_templates = templates;
      allowed_scheduler_ids = allowed_ids;
      scalars = scalars;
    })
