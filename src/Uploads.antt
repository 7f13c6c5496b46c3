-- ===== src/Uploads.antt =====
-- Uploading files to an ACP: FileMutationService (backend/src/files/file-mutation.service.ts) with
-- the staging of backend/src/files/file-storage.service.ts.
pub mod Expansion
pub mod Requests
pub mod Rollback
pub mod Names
pub mod Replacing
pub mod Rows
pub mod Outcomes
mod Tests
use content_pool_next.Base.{
  ℕ, suc, String, string_eq, Bool, true, false, not, ◌&&◌, ◌||◌, Option, none, some, List, [], ◌∷◌,
  ◌++◌, map, filter, any, contains, is_empty, same, if◌then◌else◌,
}
use content_pool_next.Base.Text.{Text, text_eq, trim}
use content_pool_next.Base.Units.{units}
use content_pool_next.Base.Http.{
  HttpError, Result, ok, err, bad_request, conflict, not_found, internal, ◌>>=◌, ◌>>◌, throw_if,
}

pub data UploadConflictStrategy : Type 0 where
  reject overwrite keep_both : UploadConflictStrategy

-- A file of a request.
pub record Upload : Type 0 where
  pub original_name : Text
  pub mime_type : Text
  pub size : ℕ
  pub buffer : Text

-- A row of backend/src/database/entities/acp-file.entity.ts.
pub record AcpFile : Type 0 where
  pub id : Text
  pub acp_id : String
  pub file_path : Text
  pub original_name : Text
  pub file_type : Text
  pub file_size : ℕ
  pub checksum : Text

-- The files of the disk, by their paths.
abbrev pub Disk : Type 0
Disk = List (Text × Text)

abbrev pub remove_path : Text → Disk → Disk
remove_path path = filter (λ entry. not (same entry.0 path))

abbrev pub write_file : Text → Text → Disk → Disk
write_file path content disk = remove_path path disk ++ (path, content) ∷ []

abbrev pub remove_physical_files : List AcpFile → Disk → Disk
remove_physical_files [] disk = disk
remove_physical_files (f ∷ files) disk = remove_physical_files files (remove_path f.file_path disk)

pub record Store : Type 0 where
  pub files : List AcpFile
  pub disk : Disk

abbrev pub is_reject : UploadConflictStrategy → Bool
is_reject reject = true
is_reject overwrite = false
is_reject keep_both = false

abbrev pub is_overwrite : UploadConflictStrategy → Bool
is_overwrite overwrite = true
is_overwrite reject = false
is_overwrite keep_both = false

-- What the code calls and this development has no source of: `toLowerCase`, the checksum, the path
-- with a random name under which an upload is staged, the ids that the database gives, and which
-- paths can be written.
pub record World : Type 0 where
  pub lower : Text → Text
  pub sha256 : Text → Text
  pub path_of : ℕ → Upload → Text
  pub new_id : ℕ → Text
  pub writable : Text → Bool

abbrev pub files_of : String → List AcpFile → List AcpFile
files_of acp_id = filter (λ f. same f.acp_id acp_id)

-- `repository.remove(files)`
abbrev pub without : List AcpFile → List AcpFile → List AcpFile
without removed = filter (λ f. not (contains f.id (map (λ r. r.id) removed)))

-- What the transaction finds and what the database does with it.
pub record Commit : Type 0 where
  pub acp_is_there : Bool
  pub saves : Bool

-- What comes of the staged files, and of the state, once the transaction has ended.
abbrev pub settle : List AcpFile → Store → Result (List AcpFile) → Store × Result (List AcpFile)
settle staged s (ok replaced) = (
  record {
    files = without replaced (s.files ++ staged);
    disk = remove_physical_files replaced s.disk;
  },
  ok staged,
)
settle staged s (err thrown) = (record s { disk = remove_physical_files staged s.disk }, err thrown)

module _ (world : World) where
  abbrev pub normalize_file_name : Text → Text
  normalize_file_name name = world.lower (trim name)

  -- the text of a strategy; a missing or an empty one is `reject`
  abbrev pub strategy_text : Option Text → Text
  strategy_text none = units "reject"
  strategy_text (some text) = if is_empty text then units "reject" else text

  unfoldable pub resolve_conflict_strategy : Option Text → Result UploadConflictStrategy
  unfolding units trim
  resolve_conflict_strategy input =
      let strategy = world.lower (trim (strategy_text input)) in
      if same strategy (units "reject")
      then ok reject
      else if same strategy (units "overwrite")
      then ok overwrite
      else if same strategy (units "keep-both")
      then ok keep_both
      else err bad_request

  -- `byName.set(key, file)`
  abbrev pub set_entry : Text → Upload → List (Text × Upload) → List (Text × Upload)
  set_entry key file [] = (key, file) ∷ []
  set_entry key file (entry ∷ entries) =
      let rest = set_entry key file entries in
      if same entry.0 key then (key, file) ∷ entries else entry ∷ rest

  -- The last file of each name, and whether a name came twice.
  unfoldable pub by_name :
      List (Text × Upload) → Bool → List Upload → Result (List (Text × Upload) × Bool)
  unfolding trim
  by_name entries twice [] = ok (entries, twice)
  by_name entries twice (file ∷ files) =
      let key = normalize_file_name file.original_name in
      let rest =
        by_name (set_entry key file entries) (twice || contains key (map (λ e. e.0) entries))
          files in
      throw_if (is_empty key) bad_request >> rest

  unfoldable pub resolve_incoming_files :
      UploadConflictStrategy → List Upload → Result (List Upload)
  unfolding by_name
  resolve_incoming_files strategy files = do
    (entries, twice) ← by_name [] false files
    throw_if (is_reject strategy && twice) conflict
        >> ok (if is_overwrite strategy then map (λ e. e.1) entries else files)

  -- the names of the stored files, less the blank ones
  abbrev pub group_by_normalized_name : List AcpFile → List Text
  group_by_normalized_name files =
      filter (λ key. not (is_empty key)) (map (λ f. normalize_file_name f.original_name) files)

  unfoldable pub assert_no_rejected_conflicts :
      UploadConflictStrategy → List Upload → List AcpFile → Result (Unit {0})
  unfolding trim
  assert_no_rejected_conflicts strategy files existing =
      throw_if
        (is_reject strategy
          && any
              (λ f.
                contains (normalize_file_name f.original_name) (group_by_normalized_name existing))
              files)
        conflict

  -- The stored files that have the name of an upload. Which of them comes first does not matter to
  -- their removal.
  unfoldable pub collect_overwrite_matches : List Upload → List AcpFile → List AcpFile
  unfolding trim
  collect_overwrite_matches files = filter (λ f.
      let key = normalize_file_name f.original_name in
      not (is_empty key) && contains key (map (λ u. normalize_file_name u.original_name) files))

  abbrev pub staged_file : String → ℕ → Upload → AcpFile
  staged_file acp_id n file = record {
    id = world.new_id n;
    acp_id = acp_id;
    file_path = world.path_of n file;
    original_name = file.original_name;
    file_type = file.mime_type;
    file_size = file.size;
    checksum = world.sha256 file.buffer;
  }

  -- `stageUpload` on the `n`th file: a write that fails leaves nothing under the path.
  unfoldable pub stage_upload : String → ℕ → Upload → Disk → Disk × Result AcpFile
  stage_upload acp_id n file disk =
      let path = world.path_of n file in
      if world.writable path
      then (write_file path file.buffer disk, ok (staged_file acp_id n file))
      else (remove_path path disk, err internal)

  -- the loop that stages, with its `catch`: what was staged goes again
  abbrev after_stage :
      List AcpFile
      → (AcpFile → Disk → Disk × Result (List AcpFile))
      → Disk × Result AcpFile
      → Disk × Result (List AcpFile)
  after_stage staged next (disk, ok row) = next row disk
  after_stage staged next (disk, err thrown) = (remove_physical_files staged disk, err thrown)

  unfoldable pub stage_all :
      String → ℕ → List AcpFile → List Upload → Disk → Disk × Result (List AcpFile)
  unfolding stage_upload
  stage_all acp_id n staged [] disk = (disk, ok staged)
  stage_all acp_id n staged (file ∷ files) disk =
      after_stage staged
        (λ row written. stage_all acp_id (suc n) (staged ++ row ∷ []) files written)
        (stage_upload acp_id n file disk)

  abbrev pub replaced_by : UploadConflictStrategy → List Upload → List AcpFile → List AcpFile
  replaced_by strategy files existing =
      if is_overwrite strategy then collect_overwrite_matches files existing else []

  -- The transaction: the files that are replaced.
  unfoldable pub commit :
      Commit → UploadConflictStrategy → String → List Upload → List AcpFile → Result (List AcpFile)
  unfolding assert_no_rejected_conflicts collect_overwrite_matches
  commit c strategy acp_id files stored = do
    throw_if (not c.acp_is_there) not_found
    assert_no_rejected_conflicts strategy files (files_of acp_id stored)
    throw_if (not c.saves) internal
    ok (replaced_by strategy files (files_of acp_id stored))

  abbrev pub after_staging :
      Commit
      → UploadConflictStrategy
      → String
      → List Upload
      → Store
      → Disk × Result (List AcpFile)
      → Store × Result (List AcpFile)
  after_staging c strategy acp_id files s (disk, ok staged) =
      settle staged (record s { disk = disk }) (commit c strategy acp_id files s.files)
  after_staging c strategy acp_id files s (disk, err thrown) =
      (record s { disk = disk }, err thrown)
