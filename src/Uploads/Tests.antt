-- ===== src/Uploads/Tests.antt =====
-- Uploads of an ACP with one file, and each theorem on them.
use content_pool_next.Base.{
  ◌+◌, String, string_eq, number_eq, Bool, true, false, ◌&&◌, Option, none, some, List, [], ◌∷◌,
  ◌++◌, map, IsDistinct, ◌≡◌, refl, if◌then◌else◌, leb,
}
use content_pool_next.Base.Text.{Text, text_eq, trim, trim_start, trim_end, is_space}
use content_pool_next.Base.Units.{units}
use content_pool_next.Base.Http.{ok, err, internal}
use content_pool_next.Uploads.{
  World, Upload, AcpFile, Store, Commit, overwrite, staged_file, files_of, without,
  resolve_conflict_strategy, resolve_incoming_files, by_name, assert_no_rejected_conflicts,
  collect_overwrite_matches, stage_upload, stage_all, commit,
}
use content_pool_next.Uploads.Expansion.{
  Entry, expand, expand_file, extract_zip_entries, extract_entries, extract_entry, is_zip_upload,
  get_archive_entry_file_name, should_skip_archive_entry, infer_mime_type_from_file_name, basename,
  extension,
}
use content_pool_next.Uploads.Requests.{UploadRequest, get_acp_or_fail, accept, upload_multiple}
use content_pool_next.Uploads.Rollback.{upload_multiple-err}
use content_pool_next.Uploads.Replacing.{file_keys}
use content_pool_next.Uploads.Outcomes.{upload_multiple-IsDistinct}

-- Small letters for the capitals of the Latin alphabet; paths and ids are numbered.
abbrev lower : Text → Text
lower = map (λ c. if leb 65 c && leb c 90 then c + 32 else c)

abbrev world : World
world = record {
  lower = lower;
  sha256 = λ t. t;
  path_of = λ n file. 47 ∷ n ∷ [];
  new_id = λ n. 105 ∷ n ∷ [];
  writable = λ path. true;
}

abbrev unzip : Text → Option (List Entry)
unzip content = some (
    record { name = units "a/"; dir = true; content = none }
    ∷ record { name = units "a/.DS_Store"; dir = false; content = some [] }
    ∷ record { name = units "a\\Unit.XML"; dir = false; content = some content }
    ∷ [])

abbrev upload_of : String → Upload
upload_of name = record { original_name = units name; mime_type = []; size = 1; buffer = 120 ∷ [] }

abbrev stored : AcpFile
stored = record {
  id = 1 ∷ [];
  acp_id = "p";
  file_path = 49 ∷ [];
  original_name = units "unit.xml";
  file_type = [];
  file_size = 2;
  checksum = [];
}

abbrev store : Store
store = record { files = stored ∷ []; disk = (49 ∷ [], 121 ∷ []) ∷ [] }

abbrev request_for : String → Bool → UploadRequest
request_for strategy expanding = record {
  acp_id = "p";
  files = upload_of "b.zip" ∷ [];
  conflict_strategy = some (units strategy);
  expand_archives = expanding;
}

abbrev committing : Commit
committing = record { acp_is_there = true; saves = true }

abbrev replacement : Upload
replacement = record {
  original_name = units "Unit.XML";
  mime_type = units "application/xml";
  size = 1;
  buffer = 120 ∷ [];
}

abbrev replaced : Store
replaced = record {
  files = staged_file world "p" 0 replacement ∷ [];
  disk = (47 ∷ 0 ∷ [], 120 ∷ []) ∷ [];
}

-- The file in the archive takes the place of the stored one, whose name differs in its capitals.
overwrite_test :
    upload_multiple world
      (λ id. true)
      unzip
      ("p" ∷ [])
      (stored ∷ [])
      committing
      (request_for "overwrite" true)
      store
    ≡ (replaced, ok (staged_file world "p" 0 replacement ∷ []))
unfolding upload_multiple accept resolve_conflict_strategy units trim trim_start trim_end is_space
    get_acp_or_fail expand expand_file is_zip_upload extract_zip_entries extract_entries
    extract_entry get_archive_entry_file_name should_skip_archive_entry
    infer_mime_type_from_file_name basename extension resolve_incoming_files by_name
    assert_no_rejected_conflicts stage_all stage_upload commit collect_overwrite_matches
overwrite_test = refl

chosen_test : resolve_conflict_strategy world (some (units "overwrite")) ≡ ok overwrite
unfolding resolve_conflict_strategy units trim trim_start trim_end is_space
chosen_test = refl

upload_multiple-IsDistinct_example :
    IsDistinct (file_keys world (files_of "p" replaced.files))
    × ((gone : List AcpFile) × (files_of "p" replaced.files
          ≡ without gone (files_of "p" store.files) ++ staged_file world "p" 0 replacement ∷ []))
upload_multiple-IsDistinct_example =
    upload_multiple-IsDistinct world (λ id. true) unzip ("p" ∷ []) (stored ∷ []) committing
      (request_for "overwrite" true) overwrite store replaced
      (staged_file world "p" 0 replacement ∷ []) chosen_test refl (λ n. refl) (refl, tt)
      overwrite_test

-- The same upload where the database fails, and as one that refuses conflicts.
failed_test :
    upload_multiple world
      (λ id. true)
      unzip
      ("p" ∷ [])
      (stored ∷ [])
      (record { acp_is_there = true; saves = false })
      (request_for "overwrite" true)
      store
    ≡ (store, err internal)
unfolding upload_multiple accept resolve_conflict_strategy units trim trim_start trim_end is_space
    get_acp_or_fail expand expand_file is_zip_upload extract_zip_entries extract_entries
    extract_entry get_archive_entry_file_name should_skip_archive_entry
    infer_mime_type_from_file_name basename extension resolve_incoming_files by_name
    assert_no_rejected_conflicts stage_all stage_upload commit collect_overwrite_matches
failed_test = refl

upload_multiple-err_example : (store.files ≡ store.files) × (store.disk ≡ store.disk)
upload_multiple-err_example =
    upload_multiple-err world (λ id. true) unzip ("p" ∷ []) (stored ∷ [])
      (record { acp_is_there = true; saves = false }) (request_for "overwrite" true) store store
      internal (λ n file. refl) failed_test
