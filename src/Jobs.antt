-- ===== src/Jobs.antt =====
-- The jobs that process uploaded files and write archives: the row of backend/src/database/entities/
-- acp-file-processing-job.entity.ts, and the progress that FileProcessingJobsService
-- (backend/src/files/file-processing-jobs.service.ts) reports on it.
pub mod Running
pub mod Requests
pub mod Steps
pub mod Progress
pub mod Endings
pub mod Activity
pub mod Downloads
mod Tests
use content_pool_next.Base.{
  ℕ, ◌+◌, min, ltb, String, Bool, true, false, Option, none, some, List, [], ◌∷◌, ◌++◌, str_eq,
  if◌then◌else◌,
}
use content_pool_next.Base.Integers.{ℤ, pos, negsuc, at_least_zero}
use content_pool_next.Base.Text.{Text}

pub data Status : Type 0 where
  pending running completed failed : Status

pub data JobType : Type 0 where
  upload_process archive_download : JobType

pub data Phase : Type 0 where
  queued sync_index zip_files validate_files validate_semantic cleanup_overwrite : Phase
  phase_completed phase_failed : Phase

-- The row, less the time of its last change, which the database sets. Reports are kept as JSON text.
pub record Job : Type 0 where
  pub id : String
  pub acp_id : String
  pub created_by_user_id : Option String
  pub job_type : JobType
  pub status : Status
  pub phase : Phase
  pub phase_label : String
  pub message : Option String
  pub phase_current : ℕ
  pub phase_total : ℕ
  pub uploaded_file_count : ℕ
  pub uploaded_file_ids : List Text
  pub run_cleanup : Bool
  pub sync_report : Option String
  pub validation_summary : Option String
  pub cleanup_report : Option String
  pub response_state_cleanup : Option String
  pub archive_file_name : Option String
  pub archive_file_path : Option String
  pub error : Option String
  pub created_at : ℕ
  pub started_at : Option ℕ
  pub finished_at : Option ℕ

pub record Snapshot : Type 0 where
  pub id : String
  pub acp_id : String
  pub job_type : JobType
  pub status : Status
  pub phase : Phase
  pub phase_label : String
  pub message : Option String
  pub phase_current : ℕ
  pub phase_total : ℕ
  pub uploaded_file_count : ℕ
  pub archive_file_name : Option String
  pub sync_report : Option String
  pub validation_summary : Option String
  pub cleanup_report : Option String
  pub response_state_cleanup : Option String
  pub error : Option String
  pub created_at : ℕ
  pub started_at : Option ℕ
  pub finished_at : Option ℕ

-- `text || null`
abbrev pub text_or_null : Option String → Option String
text_or_null none = none
text_or_null (some text) = if str_eq text "" then none else some text

unfoldable pub to_snapshot : Job → Snapshot
to_snapshot job = record {
  id = job.id;
  acp_id = job.acp_id;
  job_type = job.job_type;
  status = job.status;
  phase = job.phase;
  phase_label = job.phase_label;
  message = text_or_null job.message;
  phase_current = job.phase_current;
  phase_total = job.phase_total;
  uploaded_file_count = job.uploaded_file_count;
  archive_file_name = text_or_null job.archive_file_name;
  sync_report = job.sync_report;
  validation_summary = job.validation_summary;
  cleanup_report = job.cleanup_report;
  response_state_cleanup = job.response_state_cleanup;
  error = text_or_null job.error;
  created_at = job.created_at;
  started_at = job.started_at;
  finished_at = job.finished_at;
}

-- What is called on the stream of a job: `next`, `complete`, `error`.
pub data Event : Type 0 where
  next_snapshot : Snapshot → Event
  complete stream_error : Event

-- A message in a patch may be `undefined`: the object then has none, and the save leaves the column.
pub data Message : Type 0 where
  undefined_message : Message
  set_message : Option String → Message

abbrev pub message_of : Message → Option String
message_of undefined_message = none
message_of (set_message m) = m

abbrev pub message_after : Message → Option String → Option String
message_after undefined_message stored = stored
message_after (set_message m) stored = m

pub record Patch : Type 0 where
  pub assign : Job → Job
  pub message : Message

-- A row of backend/src/database/entities/acp-file.entity.ts, as far as jobs and the services that
-- they call read or write it. The result of a validation is kept as JSON text.
pub record File : Type 0 where
  pub id : Text
  pub acp_id : String
  pub validation_result : Option String

-- A run of a job: the object in memory, its row and those of the files in the database, and the
-- calls on the stream so far.
pub record Run : Type 0 where
  pub job : Job
  pub row : Job
  pub events : List Event
  pub files : List File

unfoldable pub persist : Patch → Run → Run
unfolding to_snapshot
persist patch run =
    let job = patch.assign run.job in
    record {
      job = record job { message = message_of patch.message };
      row = record job { message = message_after patch.message run.row.message };
      events =
          run.events
          ++ next_snapshot (to_snapshot (record job { message = message_of patch.message })) ∷ [];
      files = run.files;
    }

unfoldable pub get_phase_label : Phase → String
get_phase_label sync_index = "ACP-Index wird synchronisiert"
get_phase_label zip_files = "ZIP wird erstellt"
get_phase_label validate_files = "Dateien werden validiert"
get_phase_label validate_semantic = "ACP-Semantik wird geprüft"
get_phase_label cleanup_overwrite = "Bereinigung nach Ersetzen läuft"
get_phase_label phase_completed = "Abgeschlossen"
get_phase_label phase_failed = "Fehlgeschlagen"
get_phase_label queued = "Wartet auf Verarbeitung"

-- The variables of a progress reporter, with the run that it writes to.
pub record Reporter : Type 0 where
  pub current_phase : Phase
  pub current : ℕ
  pub total : ℕ
  pub run : Run

-- A call on the reporter; a missing `delta` is 1.
pub data Call : Type 0 where
  start_phase : Phase → ℤ → Option String → Option String → Call
  advance : ℤ → Message → Call
  change_message : Option String → Call
  complete_phase : Message → Call

-- `options?.phaseLabel || this.getPhaseLabel(phase)`
abbrev pub label_or : Option String → String → String
label_or none label = label
label_or (some given) label = if str_eq given "" then label else given

-- the patch with the reporter's progress
abbrev pub progress_patch : Phase → ℕ → ℕ → Message → Patch
progress_patch phase current total message = record {
  assign = λ job. record job { phase = phase; phase_current = current; phase_total = total };
  message = message;
}

-- `total > 0 ? Math.min(total, current + delta) : current + delta`
abbrev pub advanced : ℕ → ℕ → ℕ → ℕ
advanced total current delta = if ltb 0 total then min total (current + delta) else current + delta

abbrev pub phase_patch : Phase → ℕ → Option String → String → Patch
phase_patch phase total message label = record {
  assign = λ job. record job {
    phase = phase;
    phase_label = label;
    phase_current = 0;
    phase_total = total;
  };
  message = set_message (text_or_null message);
}

unfoldable pub report : Call → Reporter → Reporter
unfolding persist get_phase_label
report (start_phase phase total label message) r = record {
  current_phase = phase;
  current = 0;
  total = at_least_zero total;
  run =
      persist
        (phase_patch phase (at_least_zero total) message (label_or label (get_phase_label phase)))
        r.run;
}
report (advance delta message) r =
    let current = advanced r.total r.current (at_least_zero delta) in
    record r {
      current = current;
      run = persist (progress_patch r.current_phase current r.total message) r.run;
    }
report (change_message message) r = record r {
  run = persist (progress_patch r.current_phase r.current r.total (set_message message)) r.run;
}
report (complete_phase message) r = record r {
  current = r.total;
  run = persist (progress_patch r.current_phase r.total r.total message) r.run;
}

unfoldable pub report_all : List Call → Reporter → Reporter
unfolding report
report_all [] r = r
report_all (call ∷ calls) r = report_all calls (report call r)
