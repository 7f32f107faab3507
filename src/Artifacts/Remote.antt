-- ===== src/Artifacts/Remote.antt =====
-- delta/artifacts.py: `_validate_remote_url` and `resolve_remote`.
use delta_agent.Artifacts.{
  error, unavailable, refused, write_generated, ArtifactResolution, ArtifactStore, Files,
}
use delta_agent.Common.{
  String, Bool, false, not, ◌||◌, Option, none, some, List, str_eq, if◌then◌else◌,
}
use delta_agent.Common.Result.{Result, ok, err, Error, foreign}
use delta_agent.Common.Action.{Action, pure, lift, ◌>>=◌, ◌>>◌}
use delta_agent.Core.Workflow.{member}

-- What `urlparse` gives of a remote URL; `segments` is `path.split("/")`.
pub record RemoteUrl : Type 0 where
  pub url_scheme : String
  pub hostname : Option String
  pub username : Option String
  pub password : Option String
  pub fragment : String
  pub segments : List String

-- bool(text)
abbrev pub text_set : Option String → Bool
text_set none = false
text_set (some s) = not (str_eq s "")

abbrev pub unsafe_url : String → Error
unsafe_url message = foreign "ArtifactSafetyError"

-- `_validate_remote_url`
unfoldable pub validate_remote_url : RemoteUrl → Result (Unit {0})
validate_remote_url url =
    if not (str_eq url.url_scheme "https")
      || not (text_set url.hostname)
      || text_set url.username
      || text_set url.password
    then err (unsafe_url "remote artifact URLs must be credential-free HTTPS URLs")
    else if not (str_eq url.fragment "") || member ".." url.segments
    then err (unsafe_url "remote artifact URL path is not allowed")
    else ok tt

-- How a fetch ends: with bytes, or with an exception of one of three kinds.
pub data Fetched (Bytes : Type 0) : Type 0 where
  fetched : Bytes → Fetched Bytes
  timed_out : Fetched Bytes
  io_failed : Fetched Bytes
  fetch_raised : Error → Fetched Bytes

module _ (files : Files) where
  open files use {Bytes, Disk}

  abbrev pub keep_fetched :
      ArtifactStore
      → String
      → String
      → Option String
      → Fetched Bytes
      → Action Disk ArtifactResolution
  keep_fetched store hex media_type expected_hash (fetched content) =
      write_generated files store hex content media_type expected_hash
  keep_fetched store hex media_type expected_hash timed_out =
      pure (refused unavailable "remote artifact request timed out")
  keep_fetched store hex media_type expected_hash io_failed =
      pure (refused error "remote artifact request failed")
  keep_fetched store hex media_type expected_hash (fetch_raised e) = lift (err e)

  -- `resolve_remote`; `fetch` is the fetcher at the URL, the timeout and the size limit
  unfoldable pub resolve_remote :
      ArtifactStore
      → String
      → RemoteUrl
      → String
      → Option String
      → Action Disk (Fetched Bytes)
      → Action Disk ArtifactResolution
  resolve_remote store hex url media_type expected_hash fetch = do
    lift (validate_remote_url url)
    answer ← fetch
    keep_fetched store hex media_type expected_hash answer
