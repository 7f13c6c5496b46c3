-- ===== src/Uploads/Requests.antt =====
-- `upload` and `uploadMultiple` of backend/src/files/file-mutation.service.ts.
use content_pool_next.Base.{
  String, string_eq, Bool, not, Option, List, [], ◌∷◌, ◌++◌, contains, is_empty, if◌then◌else◌,
}
use content_pool_next.Base.Text.{Text}
use content_pool_next.Base.Http.{
  Result, ok, err, bad_request, not_found, internal, ◌>>=◌, ◌>>◌, throw_if,
}
use content_pool_next.Uploads.{
  World, Upload, AcpFile, Store, Commit, UploadConflictStrategy, resolve_conflict_strategy,
  resolve_incoming_files, assert_no_rejected_conflicts, files_of, stage_upload, stage_all, commit,
  after_staging, remove_path,
}
use content_pool_next.Uploads.Expansion.{Entry, expand}

-- A request for several files, with what it meets: the ACPs that exist, the files that the first
-- check reads, and the transaction.
pub record UploadRequest : Type 0 where
  pub acp_id : String
  pub files : List Upload
  pub conflict_strategy : Option Text
  pub expand_archives : Bool

module _ (world : World) (is_uuid : String → Bool) (unzip : Text → Option (List Entry)) where
  unfoldable pub get_acp_or_fail : List String → String → Result (Unit {0})
  get_acp_or_fail acps acp_id =
      throw_if (not (is_uuid acp_id)) bad_request >> throw_if (not (contains acp_id acps)) not_found

  -- the strategy and the files of a request that goes on to be staged
  unfoldable pub accept :
      List String → List AcpFile → UploadRequest → Result (UploadConflictStrategy × List Upload)
  unfolding resolve_conflict_strategy resolve_incoming_files assert_no_rejected_conflicts
      get_acp_or_fail expand
  accept acps read request = do
    strategy ← resolve_conflict_strategy world request.conflict_strategy
    throw_if (is_empty request.files) bad_request
    get_acp_or_fail acps request.acp_id
    normalized ←
        (if request.expand_archives
          then expand world.lower unzip request.files
          else ok request.files)
    files ← resolve_incoming_files world strategy normalized
    assert_no_rejected_conflicts world strategy files (files_of request.acp_id read)
    ok (strategy, files)

  abbrev pub after_accepting :
      Commit
      → String
      → Store
      → Result (UploadConflictStrategy × List Upload)
      → Store × Result (List AcpFile)
  after_accepting c acp_id s (err thrown) = (s, err thrown)
  after_accepting c acp_id s (ok (strategy, files)) =
      after_staging world c strategy acp_id files s (stage_all world acp_id 0 [] files s.disk)

  -- `read` is what the first check sees, `s` the state from the staging on.
  unfoldable pub upload_multiple :
      List String → List AcpFile → Commit → UploadRequest → Store → Store × Result (List AcpFile)
  unfolding accept stage_all commit
  upload_multiple acps read c request s =
      after_accepting c request.acp_id s (accept acps read request)

  -- `upload`: one file, without a look at the names
  unfoldable pub upload : List String → Bool → String → Upload → Store → Store × Result AcpFile
  unfolding get_acp_or_fail stage_upload
  upload acps saves acp_id file s = elim (get_acp_or_fail acps acp_id) [
    | err thrown ↦ (s, err thrown)
    | ok passed ↦
        let (disk, staged) = stage_upload world acp_id 0 file s.disk in
        elim staged [
          | err thrown ↦ (record s { disk = disk }, err thrown)
          | ok row ↦
              if saves
              then (record { files = s.files ++ row ∷ []; disk = disk }, ok row)
              else (record s { disk = remove_path row.file_path disk }, err internal)
        ]
  ]
