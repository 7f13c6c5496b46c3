-- ===== src/Jobs/Running.antt =====
-- `runJob` of backend/src/files/file-processing-jobs.service.ts, with the state of the service: the
-- rows of jobs and files, the jobs that run, and the calls on the streams.
use content_pool_next.Base.{
  ℕ, ◌==◌, String, string_eq, ◌&&◌, Option, none, some, List, [], ◌∷◌, ◌++◌, map, find, contains,
  filter, not, length, same, if◌then◌else◌,
}
use content_pool_next.Base.Text.{Text, text_eq}
use content_pool_next.Jobs.{
  File, running, completed, failed, JobType, upload_process, archive_download, queued,
  phase_completed, phase_failed, Job, Event, complete, stream_error, set_message, Patch, Run,
  persist, Reporter, Call, report_all,
}

pub record Service : Type 0 where
  pub rows : List Job
  pub files : List File
  pub running_jobs : List String
  pub events : List (String × Event)

-- How a call of another service ends. What is thrown carries a message if it is an `Error`.
pub data Outcome {ℓ} (A : Type ℓ) : Type ℓ where
  returns : A → Outcome A
  throws : Option String → Outcome A

-- What another service does: its calls on the reporter, what it makes of the rows of the files, and
-- how it ends.
abbrev pub Work : Type 0 → Type 0
Work A = List Call × (List File → List File) × Outcome A

pub record Archive : Type 0 where
  pub file_name : String
  pub file_path : String

-- The reports of a clean-up; a missing one is `null`.
pub record Cleanup : Type 0 where
  pub cleanup_report : Option String
  pub response_state_cleanup : Option String

-- The services that a job calls.
pub record Services : Type 0 where
  pub create_files_zip_archive : String → List Text → Work Archive
  pub sync_index_from_files : String → Work String
  pub auto_validate_uploaded_files : String → List File → Work String
  pub cleanup_references : String → Work Cleanup

-- A part of a run: what it leaves the reporter with, and how it ends.
abbrev pub Step : Type 0 → Type 0
Step A = Reporter → Reporter × Outcome A

abbrev pub and_then : {A B : Type 0} → Step A → (A → Step B) → Step B
and_then first next r = elim ((first r).1) [
  | returns a ↦ next a ((first r).0)
  | throws e ↦ ((first r).0, throws e)
]

abbrev pub save_files : (List File → List File) → Reporter → Reporter
save_files saved r = record r { run = record r.run { files = saved r.run.files } }

abbrev pub perform : {A : Type 0} → Work A → Step A
perform (calls, saved, end) r = (save_files saved (report_all calls r), end)

abbrev pub file_of : String → Text → List File → Option File
file_of acp_id id = find (λ f. same f.acp_id acp_id && same f.id id)

-- `ids.map((id) => filesById.get(id)).filter((file) => !!file)`
unfoldable pub ordered_files : String → List File → List Text → List File
ordered_files acp_id files [] = []
ordered_files acp_id files (id ∷ ids) =
    let rest = ordered_files acp_id files ids in
    elim (file_of acp_id id files) [ none ↦ rest | some f ↦ f ∷ rest ]

unfoldable pub load_uploaded_files : Job → Step (List File)
unfolding ordered_files
load_uploaded_files job r =
    let ordered = ordered_files job.acp_id r.run.files job.uploaded_file_ids in
    (
      r,
      (if length ordered == length job.uploaded_file_ids
          then returns ordered
          else throws (some "Uploaded files are incomplete and cannot be processed")),
    )

abbrev pub archive_patch : ℕ → Archive → Patch
archive_patch now archive = record {
  assign = λ job. record job {
    status = completed;
    phase = phase_completed;
    phase_label = "ZIP bereit";
    archive_file_name = some archive.file_name;
    archive_file_path = some archive.file_path;
    error = none;
    finished_at = some now;
  };
  message = set_message (some "Das ZIP-Archiv kann jetzt heruntergeladen werden.");
}

abbrev pub upload_patch : ℕ → String → String → Cleanup → Patch
upload_patch now sync summary cleanup = record {
  assign = λ job. record job {
    status = completed;
    phase = phase_completed;
    phase_label = "Abgeschlossen";
    sync_report = some sync;
    validation_summary = some summary;
    cleanup_report = cleanup.cleanup_report;
    response_state_cleanup = cleanup.response_state_cleanup;
    error = none;
    finished_at = some now;
  };
  message = set_message (some "Upload-Verarbeitung abgeschlossen.");
}

abbrev pub failure_text : Option String → String
failure_text none = "Upload-Verarbeitung fehlgeschlagen."
failure_text (some message) = message

abbrev pub failure_patch : ℕ → Option String → Patch
failure_patch now thrown = record {
  assign = λ job. record job {
    status = failed;
    phase = phase_failed;
    phase_label = "Fehlgeschlagen";
    error = some (failure_text thrown);
    finished_at = some now;
  };
  message = set_message (some (failure_text thrown));
}

abbrev pub start_message : JobType → String
start_message archive_download = "ZIP-Erstellung wird gestartet."
start_message upload_process = "Verarbeitungsjob wird gestartet."

-- `job.startedAt || new Date()`
abbrev pub started : Option ℕ → ℕ → ℕ
started none now = now
started (some earlier) now = earlier

abbrev pub start_patch : ℕ → Job → Patch
start_patch now stored = record {
  assign = λ job. record job { status = running; started_at = some (started job.started_at now) };
  message = set_message (some (start_message stored.job_type));
}

-- the clean-up, where the job wants one
abbrev pub cleanup_step : Services → Job → Step Cleanup
cleanup_step services job r =
    if job.run_cleanup
    then perform (services.cleanup_references job.acp_id) r
    else (r, returns (record { cleanup_report = none; response_state_cleanup = none }))

-- the body of the `try`, up to the patch that completes the job
unfoldable pub work_on : Services → ℕ → Job → JobType → Step Patch
unfolding load_uploaded_files
work_on services now job archive_download =
    and_then (perform (services.create_files_zip_archive job.acp_id job.uploaded_file_ids))
      (λ archive r. (r, returns (archive_patch now archive)))
work_on services now job upload_process = and_then (load_uploaded_files job) (λ uploaded.
    and_then (perform (services.sync_index_from_files job.acp_id)) (λ sync.
      and_then (perform (services.auto_validate_uploaded_files job.acp_id uploaded)) (λ summary.
        and_then (cleanup_step services job)
          (λ cleanup r. (r, returns (upload_patch now sync summary cleanup))))))

-- The patch that ends the run, and the call that closes the stream.
abbrev pub end_run : ℕ → Reporter × Outcome Patch → Run
end_run now (r, returns patch) = persist patch r.run
end_run now (r, throws thrown) = persist (failure_patch now thrown) r.run

abbrev pub new_run : Job → List File → Run
new_run job files = record { job = job; row = job; events = []; files = files }

-- the reporter of a run, once the run has been marked as started
unfoldable pub started_reporter : ℕ → Job → List File → Reporter
unfolding persist
started_reporter start job files = record {
  current_phase = queued;
  current = 0;
  total = 0;
  run = persist (start_patch start job) (new_run job files);
}

-- The run of a stored job from its start to its end, at the times `start` and `finish`.
unfoldable pub run_stored : Services → List File → ℕ → ℕ → Job → Run
unfolding persist work_on started_reporter
run_stored services files start finish job =
    end_run finish (work_on services finish job job.job_type (started_reporter start job files))

abbrev pub replace_row : Job → List Job → List Job
replace_row row = map (λ j. if same j.id row.id then row else j)

abbrev pub on_stream : String → List Event → List (String × Event)
on_stream id = map (λ e. (id, e))

-- `runningJobs.delete(jobId)`
abbrev pub removed : String → List String → List String
removed id = filter (λ j. not (same j id))

unfoldable pub run_job : Services → ℕ → ℕ → String → Service → Service
unfolding run_stored
run_job services start finish id s =
    if contains id s.running_jobs then s else elim (find (λ j. same j.id id) s.rows) [
      | none ↦ record s {
        running_jobs = id ∷ s.running_jobs;
        events = s.events ++ on_stream id (stream_error ∷ []);
      }
      | some job ↦
          let run = run_stored services s.files start finish job in
          record s {
            rows = replace_row run.row s.rows;
            files = run.files;
            running_jobs = removed id (id ∷ s.running_jobs);
            events = s.events ++ on_stream id (run.events ++ complete ∷ []);
          }
    ]
