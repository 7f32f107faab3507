-- ===== src/Artifacts.antt =====
-- delta/artifacts.py: generated files under a controlled root, and the checks of what is read back.
pub mod Remote
pub mod Verified
use delta_agent.Core.Workflow.{member}
use delta_agent.Common.{
  ℕ, String, Bool, true, false, not, ◌&&◌, ◌||◌, Option, none, some, ℤ, pos, List, ltb, ◌==◌,
  str_eq, if◌then◌else◌,
}
use delta_agent.Common.Result.{foreign, Result, ok, err, Error, value_error, require, refuse}
use delta_agent.Common.Action.{Action, pure, lift, ◌>>=◌, ◌>>◌}
use delta_agent.Common.Text.{◌⧺◌}
use delta_agent.Core.Work.{ArtifactReference, check_artifact}

pub data ArtifactResolutionStatus : Type 0 where
  available unavailable invalid error : ArtifactResolutionStatus

pub record ArtifactResolution : Type 0 where
  pub status : ArtifactResolutionStatus
  pub reference : Option ArtifactReference
  pub reason : String

-- The file system and the parts of `pathlib`, `hashlib` and `urllib` that are called. Paths are
-- resolved on the disk, since a link may lead elsewhere.
pub record Files : Type 1 where
  pub Bytes : Type 0
  pub FilePath : Type 0
  pub Disk : Type 0
  pub size : Bytes → ℕ
  pub sha256_hex : Bytes → String
  -- self.root / name
  pub under : String → FilePath
  pub as_uri : FilePath → String
  -- urlparse(uri): scheme, netloc, and unquote of its path
  pub scheme : String → String
  pub netloc : String → String
  pub unquoted_path : String → String
  -- Path(text).resolve()
  pub resolve : String → Disk → FilePath
  -- candidate.relative_to(self.root) raises nothing
  pub is_under_root : FilePath → Bool
  pub file_name : FilePath → String
  pub exists : FilePath → Disk → Bool
  pub is_file : FilePath → Disk → Bool
  pub read_bytes : FilePath → Action Disk Bytes
  pub write_bytes : FilePath → Bytes → Action Disk (Unit {0})

pub record ArtifactStore : Type 0 where
  pub max_bytes : ℕ

-- `ArtifactStore.__init__`, for a root that exists and a positive timeout.
unfoldable pub make_artifact_store : ℕ → Result ArtifactStore
make_artifact_store max_bytes =
    if max_bytes == 0
    then err (value_error "max_bytes must be positive")
    else ok (record { max_bytes = max_bytes })

abbrev pub refused : ArtifactResolutionStatus → String → ArtifactResolution
refused status reason = record { status = status; reference = none; reason = reason }

abbrev pub accepted : ArtifactReference → String → ArtifactResolution
accepted r reason = record { status = available; reference = some r; reason = reason }

abbrev pub differs : Option String → String → Bool
differs none digest = false
differs (some expected) digest = not (str_eq expected digest)

module _ (files : Files) where
  open files use {
    Bytes, FilePath, Disk, size, under, as_uri, scheme, netloc, unquoted_path, is_under_root,
    file_name, exists, is_file, read_bytes, write_bytes,
  }

  -- `_content_hash`
  abbrev pub content_hash : Bytes → String
  content_hash content = "sha256:" ⧺ Files.sha256_hex files content

  abbrev pub bin_name : String → String
  bin_name artifact_id = artifact_id ⧺ ".bin"

  -- The part of `write_generated` after its two checks, with the identifier that was drawn.
  abbrev pub write_checked : String → Bytes → String → Action Disk ArtifactResolution
  write_checked artifact_id content media_type = do
    write_bytes (under (bin_name artifact_id)) content
    reference ← lift (
        check_artifact (record {
          artifact_id = artifact_id;
          content_hash = content_hash content;
          media_type = media_type;
          byte_size = pos (size content);
          uri = some (as_uri (under (bin_name artifact_id)));
          available = true;
        }))
    pure (accepted reference "generated artifact persisted and verified")

  -- `write_generated`; `hex` is what `uuid.uuid4` gives
  unfoldable pub write_generated :
      ArtifactStore → String → Bytes → String → Option String → Action Disk ArtifactResolution
  write_generated store hex content media_type expected_hash =
      if ltb store.max_bytes (size content)
      then pure (refused invalid "artifact exceeds the configured size limit")
      else if differs expected_hash (content_hash content)
      then pure (refused invalid "artifact content hash does not match the expected hash")
      else write_checked ("artifact-" ⧺ hex) content media_type

  -- The part of `resolve_local` on the bytes that were read.
  abbrev pub judge_content : ArtifactStore → ArtifactReference → Bytes → ArtifactResolution
  judge_content store r content =
      if ltb store.max_bytes (size content)
      then refused invalid "artifact exceeds the configured size limit"
      else if not (str_eq (content_hash content) r.content_hash)
      then refused invalid "artifact content hash does not match the persisted reference"
      else accepted r "artifact exists and matches its persisted hash"

  abbrev pub resolve_file :
      ArtifactStore → ArtifactReference → FilePath → Action Disk ArtifactResolution
  resolve_file store r candidate = do
    content ← read_bytes candidate
    pure (judge_content store r content)

  -- The tests of the path.
  abbrev pub resolve_candidate :
      ArtifactStore → ArtifactReference → FilePath → Action Disk ArtifactResolution
  resolve_candidate store r candidate disk =
      if not (is_under_root candidate)
      then (ok (refused invalid "artifact path escapes the generated artifact root"), disk)
      else if not (str_eq (file_name candidate) (bin_name r.artifact_id))
      then (ok (refused invalid "artifact filename is not a generated artifact identifier"), disk)
      else if not (exists candidate disk)
      then (ok (refused unavailable "artifact file is unavailable"), disk)
      else if not (is_file candidate disk)
      then (ok (refused invalid "artifact reference does not resolve to a file"), disk)
      else resolve_file store r candidate disk

  abbrev pub is_local : String → Bool
  is_local uri =
      str_eq (scheme uri) "file" && (str_eq (netloc uri) "" || str_eq (netloc uri) "localhost")

  abbrev pub resolve_uri :
      ArtifactStore → ArtifactReference → Option String → Action Disk ArtifactResolution
  resolve_uri store r none disk =
      (ok (refused unavailable "artifact reference has no local URI"), disk)
  resolve_uri store r (some uri) disk =
      if is_local uri
      then resolve_candidate store r (Files.resolve files (unquoted_path uri) disk) disk
      else (ok (refused invalid "local artifact references must use a file URI"), disk)

  unfoldable pub resolve_local : ArtifactStore → ArtifactReference → Action Disk ArtifactResolution
  resolve_local store r = resolve_uri store r r.uri
