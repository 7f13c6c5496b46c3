-- ===== src/Jobs/Requests.antt =====
-- The requests on jobs: `createAndStartJob`, `createAndStartDownloadJob`, `getJobSnapshot` and
-- `downloadArchive` of backend/src/files/file-processing-jobs.service.ts.
use content_pool_next.Base.{
  ℕ, ◌==◌, String, string_eq, str_eq, Bool, true, false, not, ◌&&◌, Option, none, some, List, [],
  ◌∷◌, ◌++◌, map, filter, find, any, contains, dedupe, is_empty, length, same, if◌then◌else◌,
}
use content_pool_next.Base.Text.{Text, text_eq, trim}
use content_pool_next.Base.Http.{
  Result, ok, err, bad_request, conflict, not_found, ◌>>=◌, ◌>>◌, or_throw, throw_if,
}
use content_pool_next.Jobs.{
  File, Status, pending, running, completed, failed, JobType, upload_process, archive_download,
  queued, Job, Snapshot, to_snapshot, next_snapshot, text_or_null,
}
use content_pool_next.Jobs.Running.{Service, Services, on_stream, run_job}

-- the ids of a request, trimmed, without the empty ones, each once
unfoldable pub normalized_ids : List Text → List Text
unfolding trim
normalized_ids ids = dedupe (filter (λ id. not (is_empty id)) (map trim ids))

abbrev pub is_active : Status → Bool
is_active pending = true
is_active running = true
is_active completed = false
is_active failed = false

abbrev pub is_active_of : String → Job → Bool
is_active_of acp_id job = same job.acp_id acp_id && is_active job.status

unfoldable pub ensure_no_active_job : String → List Job → Result (Unit {0})
ensure_no_active_job acp_id rows = throw_if (any (is_active_of acp_id) rows) conflict

-- the files of the ACP with these ids
abbrev pub files_of : String → List Text → List File → List File
files_of acp_id ids = filter (λ f. same f.acp_id acp_id && contains f.id ids)

-- What a request to create a job brings along: the user, the id that the database gives, the time.
pub record Order : Type 0 where
  pub acp_id : String
  pub file_ids : List Text
  pub created_by_user_id : Option String
  pub new_id : String
  pub now : ℕ

abbrev pub queued_job : Order → JobType → String → String → ℕ → List Text → Bool → Job
queued_job order type label message count ids cleanup = record {
  id = order.new_id;
  acp_id = order.acp_id;
  created_by_user_id = text_or_null order.created_by_user_id;
  job_type = type;
  status = pending;
  phase = queued;
  phase_label = label;
  message = some message;
  phase_current = 0;
  phase_total = 0;
  uploaded_file_count = count;
  uploaded_file_ids = ids;
  run_cleanup = cleanup;
  sync_report = none;
  validation_summary = none;
  cleanup_report = none;
  response_state_cleanup = none;
  archive_file_name = none;
  archive_file_path = none;
  error = none;
  created_at = order.now;
  started_at = none;
  finished_at = none;
}

abbrev pub upload_job : Order → List Text → Bool → Job
upload_job order ids run_cleanup =
    queued_job order upload_process "Wartet auf Verarbeitung" "Verarbeitungsjob wurde erstellt."
      (length ids) ids run_cleanup

abbrev pub download_job : Order → List Text → ℕ → Job
download_job order ids count =
    queued_job order archive_download "Wartet auf ZIP-Erstellung" "Download-Job wurde erstellt."
      count ids false

-- the new row, and its snapshot on the stream
unfoldable pub with_job : Job → Service → Snapshot × Service
unfolding to_snapshot
with_job job s = (
  to_snapshot job,
  record s {
    rows = s.rows ++ job ∷ [];
    events = s.events ++ on_stream job.id (next_snapshot (to_snapshot job) ∷ []);
  },
)

unfoldable pub create_and_start_job : Order → Bool → Service → Result (Snapshot × Service)
unfolding normalized_ids ensure_no_active_job with_job
create_and_start_job order run_cleanup s =
    let ids = normalized_ids order.file_ids in
    throw_if (is_empty ids) bad_request
    >> ensure_no_active_job order.acp_id s.rows
    >> throw_if (not (length (files_of order.acp_id ids s.files) == length ids)) bad_request
    >> ok (with_job (upload_job order ids run_cleanup) s)

-- the number of files that an archive is made of
unfoldable pub count_files : String → List Text → List File → Result ℕ
count_files acp_id ids files =
    if is_empty ids
    then throw_if (length (filter (λ f. same f.acp_id acp_id) files) == 0) bad_request
      >> ok (length (filter (λ f. same f.acp_id acp_id) files))
    else throw_if (not (length (files_of acp_id ids files) == length ids)) bad_request
      >> ok (length (files_of acp_id ids files))

unfoldable pub create_and_start_download_job : Order → Service → Result (Snapshot × Service)
unfolding normalized_ids ensure_no_active_job count_files with_job
create_and_start_download_job order s =
    let ids = normalized_ids order.file_ids in
    ensure_no_active_job order.acp_id s.rows
    >> (count_files order.acp_id ids s.files
        >>= (λ count. ok (with_job (download_job order ids count) s)))

unfoldable pub get_job_for_acp : String → String → Service → Result Job
get_job_for_acp acp_id id s = do
  job ← or_throw (find (λ j. same j.id id) s.rows) not_found
  throw_if (not (same job.acp_id acp_id)) not_found >> ok job

unfoldable pub get_job_snapshot : String → String → Service → Result Snapshot
unfolding get_job_for_acp to_snapshot
get_job_snapshot acp_id id s = do job ← get_job_for_acp acp_id id s; ok (to_snapshot job)

abbrev pub is_completed : Status → Bool
is_completed completed = true
is_completed _ = false

abbrev pub text_of : Option String → String
text_of none = ""
text_of (some text) = text

-- `status === "completed"`, with a path and a name
abbrev pub is_ready : Job → Bool
is_ready job =
    is_completed job.status
    && not (str_eq (text_of job.archive_file_path) "")
    && not (str_eq (text_of job.archive_file_name) "")

abbrev pub is_download : JobType → Bool
is_download archive_download = true
is_download upload_process = false

-- `read_file` is what stands on the disk under a path.
unfoldable pub download_archive :
    (String → Option Text) → String → String → Service → Result (Text × String)
unfolding get_job_for_acp
download_archive read_file acp_id id s = do
  job ← get_job_for_acp acp_id id s
  (throw_if (not (is_download job.job_type)) bad_request
        >> throw_if (not (is_ready job)) conflict
        >> or_throw (read_file (text_of job.archive_file_path)) not_found)
      >>= (λ buffer. ok (buffer, text_of job.archive_file_name))

-- What happens to the service, one after the other.
pub data Request : Type 0 where
  create_upload : Order → Bool → Request
  create_download : Order → Request
  run_started : String → ℕ → ℕ → Request

-- A request that is refused changes nothing.
abbrev pub after : Service → Result (Snapshot × Service) → Service
after s (err thrown) = s
after s (ok created) = created.1

unfoldable pub handle : Services → Request → Service → Service
unfolding create_and_start_job create_and_start_download_job run_job
handle services (create_upload order run_cleanup) s =
    after s (create_and_start_job order run_cleanup s)
handle services (create_download order) s = after s (create_and_start_download_job order s)
handle services (run_started id start finish) s = run_job services start finish id s

unfoldable pub handle_all : Services → List Request → Service → Service
unfolding handle
handle_all services [] s = s
handle_all services (request ∷ requests) s =
    handle_all services requests (handle services request s)
