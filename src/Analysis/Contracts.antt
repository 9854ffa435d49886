-- ===== src/Analysis/Contracts.antt =====
-- backends/analysis/contracts.py: the data of the wire contract. `F` is the type of floats.
use stability_toys.Prelude.{
  String, Bool, true, false, not, List, [], ◌∷◌, Option, none, some, same_text, ite, if◌then◌else◌,
}

-- `AnalysisValidationError`, by its code; the messages are left out.
pub data AnalysisError : Type 0 where
  invalid_request target_binding_invalid : AnalysisError

pub data TaskKind : Type 0 where
  caption detect ocr pose embed : TaskKind

pub data RunStatus : Type 0 where
  succeeded failed skipped : RunStatus

pub data DescribeStatus : Type 0 where
  all_ok partly all_failed : DescribeStatus

abbrev pub is_empty : String → Bool
is_empty s = ite (same_text s "") true false

-- `bool(s)` of an optional text
abbrev pub is_set : Option String → Bool
is_set none = false
is_set (some s) = not (is_empty s)

pub record DescribeTarget : Type 0 where
  pub id : String
  pub asset_ref : Option String
  pub url : Option String
  pub role : String

abbrev pub primary_role : String
primary_role = "primary"

unfoldable pub effective_role : DescribeTarget → String
effective_role t = ite (same_text t.role "") primary_role t.role

abbrev pub is_primary : String → Bool
is_primary role = ite (same_text role primary_role) true false

pub record CaptionParams : Type 0 where
  pub prompt : Option String

-- A Boolean is an int in Python, and passes for a number.
pub data Number (F : Type 0) : Type 0 where
  float : F → Number F
  flag : Bool → Number F

pub record DetectParams (F : Type 0) : Type 0 where
  pub labels : List String
  pub min_confidence : Option (Number F)

pub data OcrParams : Type 0 where
  ocr_params : OcrParams

pub data PoseParams : Type 0 where
  pose_params : PoseParams

pub data EmbedParams : Type 0 where
  embed_params : EmbedParams

pub record DescribeTask (F : Type 0) : Type 0 where
  pub id : String
  pub kind : TaskKind
  pub target_ids : List String
  pub caption : Option CaptionParams
  pub detect : Option (DetectParams F)
  pub ocr : Option OcrParams
  pub pose : Option PoseParams
  pub embed : Option EmbedParams

pub record DescribeRequest (F : Type 0) : Type 0 where
  pub targets : List DescribeTarget
  pub tasks : List (DescribeTask F)
  pub mode : Option String

-- `_PARAM_KEYS`, which are also the values of the enum
abbrev pub param_key : TaskKind → String
param_key caption = "caption"
param_key detect = "detect"
param_key ocr = "ocr"
param_key pose = "pose"
param_key embed = "embed"

abbrev pub all_kinds : List TaskKind
all_kinds = caption ∷ detect ∷ ocr ∷ pose ∷ embed ∷ []

abbrev pub same_kind : TaskKind → TaskKind → Bool
same_kind caption caption = true
same_kind detect detect = true
same_kind ocr ocr = true
same_kind pose pose = true
same_kind embed embed = true
same_kind _ _ = false

-- The blocks that are set: `set_blocks != [_PARAM_KEYS[kind]]`
abbrev pub is_only : TaskKind → List TaskKind → Bool
is_only k (j ∷ []) = same_kind j k
is_only k _ = false

-- `[k for k in _ALL_PARAM_KEYS if test(k)]`
unfoldable pub chosen : (TaskKind → Bool) → List TaskKind → List TaskKind
chosen test [] = []
chosen test (k ∷ ks) = if test k then k ∷ chosen test ks else chosen test ks

abbrev pub is_nil {ℓ} : {A : Type ℓ} → List A → Bool
is_nil [] = true
is_nil (_ ∷ _) = false

pub record RunError : Type 0 where
  pub code : String
  pub message : String

-- `Obs`, `Art` and `Raw` are what a provider answers with, which the orchestrator never looks into.
pub record DescribeRun (Raw : Type 0) : Type 0 where
  pub task_id : String
  pub target_id : String
  pub delegate : String
  pub status : RunStatus
  pub error : Option RunError
  pub raw_output : Option Raw

pub record DescribeResponse (Obs Art Raw : Type 0) : Type 0 where
  pub status : DescribeStatus
  pub observations : List Obs
  pub runs : List (DescribeRun Raw)
  pub artifacts : List Art
  pub summary : Option String
