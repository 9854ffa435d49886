-- ===== src/Resolution/Identity.antt =====
-- backends/model_resolution.py: the identity of a model's files. The file system and the hash are parameters.
use stability_toys.Prelude.{
  ℕ, String, Bool, true, false, not, List, [], ◌∷◌, Option, ◌&&◌, ◌||◌, if◌then◌else◌, ◌==◌, length,
}
use stability_toys.Prelude.Dict.{Dict, lookup}
use stability_toys.Prelude.Effects.{ok}
use stability_toys.Prelude.Outcome.{◌>>=◌, ◌>>◌, refuse}
use stability_toys.Assets.Cleanup.{member}
use stability_toys.Analysis.Json.{Json, null, number, text, array}
use stability_toys.Modes.Values.{array_of, is_name, is_null}
use stability_toys.Resolution.Snapshot.{Resolved, symlink, no_such_key, optional_string, at_key}

-- A reference that was read from the wire holds what stood there.
pub record ModelArtifactRef (F : Type 0) : Type 0 where
  pub kind : Json F
  pub name : Json F
  pub revision : Json F
  pub fingerprint : Json F
  pub digest : Json F

-- An entry that `os.walk` gives: its path from the root, with "/" in NFC, and what it is
pub record FileEntry : Type 0 where
  pub rel_posix : String
  pub is_link : Bool
  pub is_directory : Bool
  pub is_file : Bool
  pub size : ℕ

pub record FileSystem (F : Type 0) : Type 0 where
  pub is_link : String → Bool
  pub is_dir : String → Bool
  pub walk : String → List FileEntry
  pub size : String → ℕ
  pub basename : String → String
  pub of_nat : ℕ → F
  -- `manifest.sort(key=...)`, by the bytes of the path
  pub sort : List (String × ℕ) → List (String × ℕ)
  -- `sha256(rfc8785.dumps(v))`, and `f"{repo_id}@{revision}"`
  pub sha256 : Json F → String
  pub at_revision : String → Option String → String
  -- `list(revision.lower())`
  pub characters : String → List String

module _ {F : Type 0} (os : FileSystem F) where
  unfoldable pub manifest_entries : List FileEntry → Resolved (List (String × ℕ))
  manifest_entries [] = ok []
  manifest_entries (e ∷ es) = do
    refuse e.is_link symlink
    rest ← manifest_entries es
    ok (if not e.is_directory && e.is_file then (e.rel_posix, e.size) ∷ rest else rest)

  -- `_local_dir_manifest`
  unfoldable pub local_dir_manifest : String → Resolved (List (String × ℕ))
  local_dir_manifest root = manifest_entries (os.walk root) >>= λ es. ok (os.sort es)

  unfoldable pub manifest_json : List (String × ℕ) → List (Json F)
  manifest_json [] = []
  manifest_json ((rel, size) ∷ es) =
      array (array_of (text rel ∷ number (os.of_nat size) ∷ [])) ∷ manifest_json es

  abbrev pub artifact : String → String → Json F → ModelArtifactRef F
  artifact kind name payload = record {
    kind = text kind;
    name = text name;
    revision = null;
    fingerprint = text (os.sha256 payload);
    digest = null;
  }

  -- `local_artifact_ref`
  unfoldable pub local_artifact_ref : String → Resolved (ModelArtifactRef F)
  local_artifact_ref model_path = do
    refuse (os.is_link model_path) symlink
    let name = os.basename model_path
    (if os.is_dir model_path
        then (local_dir_manifest model_path >>= λ m.
            ok (artifact "local-dir" name (array (array_of (manifest_json m)))))
        else ok (
            artifact "local-file" name
              (array (array_of (text name ∷ number (os.of_nat (os.size model_path)) ∷ [])))))

  -- `hub_ref`
  unfoldable pub hub_ref : String → Option String → Option String → ModelArtifactRef F
  hub_ref repo_id revision digest = record {
    kind = text "hub";
    name = text repo_id;
    revision = optional_string revision;
    fingerprint = text (os.at_revision repo_id revision);
    digest = optional_string digest;
  }

  abbrev pub all_hex : List String → Bool
  all_hex [] = true
  all_hex (c ∷ cs) =
      member c (
        "0" ∷ "1" ∷ "2" ∷ "3" ∷ "4" ∷ "5" ∷ "6" ∷ "7" ∷ "8" ∷ "9" ∷ "a" ∷ "b" ∷ "c" ∷ "d" ∷ "e"
        ∷ "f" ∷ [])
      && all_hex cs

  -- `_is_full_commit_hash`
  unfoldable pub is_full_commit_hash : Json F → Bool
  is_full_commit_hash (text s) = let cs = os.characters s in (length cs == 40) && all_hex cs
  is_full_commit_hash _ = false

  abbrev pub is_text : Json F → String → Bool
  is_text (text s) t = is_name s t
  is_text _ t = false

  -- `has_strong_identity`
  unfoldable pub has_strong_identity : ModelArtifactRef F → Bool
  has_strong_identity ref =
      not (is_null ref.digest) || (is_text ref.kind "hub" && is_full_commit_hash ref.revision)

module _ {F : Type 0} where
  -- `model_ref_to_json_dict`
  unfoldable pub model_ref_to_json_dict : ModelArtifactRef F → Dict (Json F)
  model_ref_to_json_dict ref =
      ("kind", ref.kind)
      ∷ ("name", ref.name)
      ∷ ("revision", ref.revision)
      ∷ ("fingerprint", ref.fingerprint)
      ∷ ("digest", ref.digest)
      ∷ []

  -- `model_ref_from_json_dict`
  unfoldable pub model_ref_from_json_dict : Dict (Json F) → Resolved (ModelArtifactRef F)
  model_ref_from_json_dict wire = do
    kind ← at_key (lookup "kind" wire) no_such_key
    name ← at_key (lookup "name" wire) no_such_key
    revision ← at_key (lookup "revision" wire) no_such_key
    fingerprint ← at_key (lookup "fingerprint" wire) no_such_key
    digest ← at_key (lookup "digest" wire) no_such_key
    ok (record {
      kind = kind;
      name = name;
      revision = revision;
      fingerprint = fingerprint;
      digest = digest;
    })
