-- ===== src/Jobs/Tests.antt =====
-- An upload and an archive, and each theorem on them.
use content_pool_next.Base.{
  map, String, string_eq, true, Option, none, some, List, [], ◌∷◌, ◌++◌, find, same, ◌≡◌, refl,
  arith, if◌then◌else◌,
}
use content_pool_next.Base.Integers.{pos}
use content_pool_next.Base.Text.{Text, text_eq, trim, trim_start, trim_end, is_space}
use content_pool_next.Base.Http.{ok, err, conflict, not_found}
use content_pool_next.Jobs.{
  File, upload_process, failed, report_all, Job, Event, next_snapshot, complete, to_snapshot,
  set_message, undefined_message, start_phase, advance, zip_files, persist, report,
}
use content_pool_next.Jobs.Running.{
  work_on, load_uploaded_files, ordered_files, Service, Services, Archive, returns, throws,
  on_stream, run_job, run_stored, started_reporter,
}
use content_pool_next.Jobs.Requests.{
  Order, Request, create_upload, create_download, run_started, handle_all, create_and_start_job,
  create_and_start_download_job, normalized_ids, ensure_no_active_job, count_files, with_job,
  download_archive, download_job,
}
use content_pool_next.Jobs.Progress.{IsInBounds, run_stored-IsInBounds}
use content_pool_next.Jobs.Endings.{IsOf, IsEnded, run_job-ends}
use content_pool_next.Jobs.Activity.{IsSingle, handle_all-IsSingle}
use content_pool_next.Jobs.Downloads.{run_job-download}

abbrev archive : Archive
archive = record { file_name = "a.zip"; file_path = "/tmp/a.zip" }

-- An archive of two files that reports three; an upload that fails while it is validated, after the
-- results for its files have been saved.
abbrev services : Services
services = record {
  create_files_zip_archive = λ acp ids. (
    start_phase zip_files (pos 2) none none
        ∷ advance (pos 1) (set_message (some "one"))
        ∷ advance (pos 3) undefined_message
        ∷ [],
    λ files. files,
    returns archive,
  );
  sync_index_from_files = λ acp. ([], λ files. files, returns "{}");
  auto_validate_uploaded_files = λ acp files.
      ([], map (λ (f : File). record f { validation_result = some "{}" }), throws none);
  cleanup_references = λ acp. (
    [],
    λ files. files,
    returns (record { cleanup_report = none; response_state_cleanup = none }),
  );
}

abbrev order : Order
order = record {
  acp_id = "p";
  file_ids = (49 ∷ []) ∷ (32 ∷ 49 ∷ []) ∷ [];
  created_by_user_id = some "u";
  new_id = "j";
  now = 5;
}

abbrev job : Job
job = download_job order ((49 ∷ []) ∷ []) 1

abbrev idle : Service
idle = record {
  rows = [];
  files = record { id = 49 ∷ []; acp_id = "p"; validation_result = none } ∷ [];
  running_jobs = [];
  events = [];
}

abbrev waiting : Service
waiting = record idle { rows = job ∷ []; events = ("j", next_snapshot (to_snapshot job)) ∷ [] }

created_test : create_and_start_download_job order idle ≡ ok (to_snapshot job, waiting)
unfolding create_and_start_download_job normalized_ids trim trim_start trim_end is_space
    ensure_no_active_job count_files with_job
created_test = refl

-- Another job has to wait.
refused_test : create_and_start_job order true waiting ≡ err conflict
unfolding create_and_start_job normalized_ids trim trim_start trim_end is_space ensure_no_active_job
refused_test = refl

run_stored-IsInBounds_example : IsInBounds (run_stored services [] 6 7 job)
run_stored-IsInBounds_example = run_stored-IsInBounds services [] 6 7 job refl

abbrev requests : List Request
requests = create_download order ∷ create_upload order true ∷ run_started "j" 6 7 ∷ []

handle_all-IsSingle_example : IsSingle (handle_all services requests idle).rows
handle_all-IsSingle_example = handle_all-IsSingle services requests idle (λ acp_id. omega arith)

run_job-ends_example :
    (row : Job) × (find (λ j. same j.id "j") (run_job services 6 7 "j" waiting).rows ≡ some row)
    × IsOf job row
    × IsEnded 7 row
    × ((before : List (String × Event)) × ((run_job services 6 7 "j" waiting).events
          ≡ before ++ on_stream "j" (next_snapshot (to_snapshot row) ∷ complete ∷ [])))
    × (find (λ j. same j.id "k") (run_job services 6 7 "j" waiting).rows
        ≡ find (λ j. same j.id "k") waiting.rows)
    × ((run_job services 6 7 "j" waiting).running_jobs ≡ waiting.running_jobs)
run_job-ends_example = run_job-ends services 6 7 "j" "k" waiting job refl refl refl

abbrev read_file : String → Option Text
read_file path = if same path "/tmp/a.zip" then some (80 ∷ 75 ∷ []) else none

run_job-download_example :
    (download_archive read_file "p" "j" (run_job services 6 7 "j" waiting)
      ≡ ok (80 ∷ 75 ∷ [], "a.zip"))
    × (download_archive read_file "q" "j" (run_job services 6 7 "j" waiting) ≡ err not_found)
    × (download_archive read_file "p" "j" waiting ≡ err conflict)
run_job-download_example =
    run_job-download services 6 7 "j" "q" waiting job
      (start_phase zip_files (pos 2) none none
        ∷ advance (pos 1) (set_message (some "one"))
        ∷ advance (pos 3) undefined_message
        ∷ [])
      (λ files. files) archive read_file (80 ∷ 75 ∷ []) refl refl refl refl refl refl refl refl refl

-- A message that is left out clears the snapshot, and leaves the row.
left_out_test :
    let r = report (advance (pos 1) undefined_message) (started_reporter 6 job []) in
    (r.run.job.message ≡ none)
    × (r.run.row.message ≡ some "ZIP-Erstellung wird gestartet.")
    × (r.run.row.phase_current ≡ 1)
unfolding report started_reporter persist
left_out_test = (refl, refl, refl)

-- An upload whose validation fails ends as failed, with the results that were saved before.
upload_test :
    let upload = record job { job_type = upload_process } in
    let after = run_job services 6 7 "j" (record idle { rows = upload ∷ [] }) in
    (map (λ (j : Job). j.status) after.rows ≡ failed ∷ [])
    × (map (λ (f : File). f.validation_result) after.files ≡ some "{}" ∷ [])
    × (after.running_jobs ≡ [])
unfolding run_job run_stored work_on started_reporter persist load_uploaded_files ordered_files
    report_all
upload_test = (refl, refl, refl)
