-- ===== src/Artifacts/Verified.antt =====
-- delta/artifacts.py: what an available artifact is.
use delta_agent.Common.Action.{>>=-returned}
use delta_agent.Common.Result.{ok-injective, Result, ok}
use delta_agent.Core.Work.{ArtifactReference}
use delta_agent.Artifacts.{
  is_local, resolve_uri, judge_content, resolve_candidate, refused, content_hash,
  ArtifactResolutionStatus, resolve_file, invalid, bin_name, unavailable, available,
  ArtifactResolution, resolve_local, ArtifactStore, Files,
}
use delta_agent.Common.{
  none, eq_iff, str_eq, Option, ◌∙◌, ap, if◌then◌else◌, ◌≢◌, not, ◌≤◌, Bool, String, ◌≡◌, refl,
  arith, some, true, false,
}

guard-passed :
    {D : Type 0} (b : Bool) (status : ArtifactResolutionStatus) (reason : String)
    (rest : Result ArtifactResolution × D) (disk after : D) (resolution : ArtifactResolution)
    → status ≢ available
    → resolution.status ≡ available
    → (if b then (ok (refused status reason), disk) else rest) ≡ (ok resolution, after)
    → (b ≡ false) × (rest ≡ (ok resolution, after))
guard-passed true status reason rest disk after resolution never found h =
    let same = ok-injective (ap (λ q. q.0) h) in elim (never (ap (λ q. q.status) same ∙ found)) [ ]
guard-passed false status reason rest disk after resolution never found h = (refl, h)

not-false : (b : Bool) → not b ≡ false → b ≡ true
not-false true h = refl
not-false false h = cc

invalid-available : invalid ≢ available
invalid-available h = cc

unavailable-available : unavailable ≢ available
unavailable-available h = cc

module _ (files : Files) (store : ArtifactStore) (r : ArtifactReference) where
  open files use {
    Bytes, FilePath, Disk, size, is_under_root, file_name, exists, is_file, read_bytes,
  }

  -- The content of a file of the root that is named for the artifact, within the size limit, and of
  -- the hash that the reference has.
  abbrev pub IsContent : FilePath → Disk → Disk → Type 0
  IsContent p disk after =
      (content : Bytes) × (read_bytes p disk ≡ (ok content, after))
      × (is_under_root p ≡ true)
      × (file_name p ≡ bin_name files r.artifact_id)
      × (size content ≤ store.max_bytes)
      × (content_hash files content ≡ r.content_hash)

  judge_content-available :
      (content : Bytes)
      → (judge_content files store r content).status ≡ available
      → (size content ≤ store.max_bytes) × (content_hash files content ≡ r.content_hash)
  judge_content-available content found =
      (ground arith, ground (arith, eq_iff (content_hash files content) r.content_hash))

  resolve_file-IsContent :
      (p : FilePath) (disk after : Disk) (resolution : ArtifactResolution)
      → is_under_root p ≡ true
      → file_name p ≡ bin_name files r.artifact_id
      → resolution.status ≡ available
      → resolve_file files store r p disk ≡ (ok resolution, after)
      → IsContent p disk after
  resolve_file-IsContent p disk after resolution rooted named found h =
      let (content, d, h1, h2) = >>=-returned (read_bytes p) _ disk h in
      let judged = ap (λ q. q.status) (ok-injective (ap (λ q. q.0) h2)) in
      let fits = judge_content-available content (judged ∙ found) in
      (content, h1 ∙ ap (λ e. (ok content, e)) (ap (λ q. q.1) h2), rooted, named, fits.0, fits.1)

  resolve_candidate-IsContent :
      (p : FilePath) (disk after : Disk) (resolution : ArtifactResolution)
      → resolution.status ≡ available
      → resolve_candidate files store r p disk ≡ (ok resolution, after)
      → IsContent p disk after
  resolve_candidate-IsContent p disk after resolution found h =
      let (rooted, h1) =
        guard-passed (not (is_under_root p)) invalid
          "artifact path escapes the generated artifact root" _ disk after resolution
          invalid-available found h in
      let (named, h2) =
        guard-passed (not (str_eq (file_name p) (bin_name files r.artifact_id))) invalid
          "artifact filename is not a generated artifact identifier" _ disk after resolution
          invalid-available found h1 in
      let (there, h3) =
        guard-passed (not (exists p disk)) unavailable "artifact file is unavailable" _ disk after
          resolution unavailable-available found h2 in
      let (filed, h4) =
        guard-passed (not (is_file p disk)) invalid "artifact reference does not resolve to a file"
          _ disk after resolution invalid-available found h3 in
      resolve_file-IsContent p disk after resolution (not-false _ rooted)
        ((eq_iff (file_name p) (bin_name files r.artifact_id)).0 (not-false _ named)) found h4

  resolve_uri-IsContent :
      (o : Option String) (disk after : Disk) (resolution : ArtifactResolution)
      → resolution.status ≡ available
      → resolve_uri files store r o disk ≡ (ok resolution, after)
      → (uri : String) × (o ≡ some uri)
        × IsContent (Files.resolve files (Files.unquoted_path files uri) disk) disk after
  resolve_uri-IsContent none disk after resolution found h =
      let same = ok-injective (ap (λ q. q.0) h) in
      elim (unavailable-available (ap (λ q. q.status) same ∙ found)) [ ]
  resolve_uri-IsContent (some uri) disk after resolution found h =
      (uri, refl, tested (is_local files uri) h)
    where
      p : FilePath
      p = Files.resolve files (Files.unquoted_path files uri) disk

      tested :
          (b : Bool)
          → (if b
              then resolve_candidate files store r p disk
              else (ok (refused invalid "local artifact references must use a file URI"), disk))
            ≡ (ok resolution, after)
          → IsContent p disk after
      tested true k = resolve_candidate-IsContent p disk after resolution found k
      tested false k =
          let same = ok-injective (ap (λ q. q.0) k) in
          elim (invalid-available (ap (λ q. q.status) same ∙ found)) [ ]

  -- Where `resolve_local` answers that an artifact is available, the URI of the reference leads to a
  -- file of the generated root that is named for the artifact, and whose content, as it was read, is
  -- within the size limit and has the hash of the reference.
  pub resolve_local-IsContent :
      (disk after : Disk) (resolution : ArtifactResolution)
      → resolve_local files store r disk ≡ (ok resolution, after)
      → resolution.status ≡ available
      → (uri : String) × (r.uri ≡ some uri)
        × IsContent (Files.resolve files (Files.unquoted_path files uri) disk) disk after
  unfolding resolve_local
  resolve_local-IsContent disk after resolution h found =
      resolve_uri-IsContent r.uri disk after resolution found h
