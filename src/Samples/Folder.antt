-- ===== src/Samples/Folder.antt =====
-- A folder of one level, and an artifact that is written to it and read back.
use delta_agent.Common.Result.{ok}
use delta_agent.Common.Text.{◌⧺◌}
use delta_agent.Samples.Toy.{program}
use delta_agent.Core.Work.{check_artifact, ArtifactReference}
use delta_agent.Artifacts.{
  invalid, accepted, refused, resolve_local, write_generated, ArtifactStore, Files,
  make_artifact_store,
}
use delta_agent.Common.Dict.{insert, lookup, Dict}
use delta_agent.Common.{pos, Bool, ◌≡◌, refl, some, none, String, true, false, [], ◌∷◌, Option}

abbrev found_text : Option String → String
found_text none = ""
found_text (some s) = s

abbrev holds : Option String → Bool
holds none = false
holds (some s) = true

-- The names of the folder's paths.
abbrev names : Dict String
names = ("root/artifact-1.bin", "artifact-1.bin") ∷ []

abbrev pub folder : Files
folder = record {
  Bytes = String;
  FilePath = String;
  Disk = Dict String;
  size = λ content. 2;
  sha256_hex = λ content. content ⧺ ".";
  under = λ name. "root/" ⧺ name;
  as_uri = λ path. path;
  scheme = λ uri. "file";
  netloc = λ uri. "";
  unquoted_path = λ uri. uri;
  resolve = λ text disk. text;
  is_under_root = λ path. holds (lookup path names);
  file_name = λ path. found_text (lookup path names);
  exists = λ path disk. holds (lookup path disk);
  is_file = λ path disk. holds (lookup path disk);
  read_bytes = λ path disk. (ok (found_text (lookup path disk)), disk);
  write_bytes = λ path content disk. (ok tt, insert path content disk);
}

abbrev pub shelf : ArtifactStore
shelf = record { max_bytes = 5 }

shelf_made : make_artifact_store 5 ≡ ok shelf
unfolding make_artifact_store
shelf_made = refl

abbrev pub artifact : ArtifactReference
artifact = record {
  artifact_id = "artifact-1";
  content_hash = "sha256:hi.";
  media_type = "text/plain";
  byte_size = pos 2;
  uri = some "root/artifact-1.bin";
  available = true;
}

abbrev pub written : Dict String
written = ("root/artifact-1.bin", "hi") ∷ []

artifact_written :
    write_generated folder shelf "1" "hi" "text/plain" none []
    ≡ (ok (accepted artifact "generated artifact persisted and verified"), written)
unfolding program write_generated check_artifact
artifact_written = refl

pub artifact_resolved :
    resolve_local folder shelf artifact written
    ≡ (ok (accepted artifact "artifact exists and matches its persisted hash"), written)
unfolding program resolve_local
artifact_resolved = refl

changed : resolve_local folder shelf artifact (("root/artifact-1.bin", "ho") ∷ []) ≡ (
  ok (refused invalid "artifact content hash does not match the persisted reference"),
  ("root/artifact-1.bin", "ho") ∷ [],
)
unfolding program resolve_local
changed = refl
