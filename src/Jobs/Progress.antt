-- ===== src/Jobs/Progress.antt =====
-- The progress of a job stays within its phase.
use content_pool_next.Base.{
  ℕ, leb, Bool, true, ◌&&◌, ◌||◌, List, [], ◌∷◌, ◌++◌, every, ◌≡◌, refl, arith,
}
use content_pool_next.Base.Integers.{at_least_zero}
use content_pool_next.Jobs.{
  File, Job, to_snapshot, Event, next_snapshot, complete, stream_error, Patch, Run, persist,
  Reporter, Call, start_phase, advance, change_message, complete_phase, progress_patch, phase_patch,
  label_or, get_phase_label, advanced, report, set_message,
}
use content_pool_next.Jobs.Running.{
  save_files, Outcome, returns, throws, Services, failure_patch, start_patch, end_run, work_on,
  run_stored, new_run, started_reporter,
}
use content_pool_next.Jobs.Steps.{IsClosing, Ends, work_on-Leads}

-- A phase with a total is not beyond it; a phase without one counts freely.
abbrev pub is_within : ℕ → ℕ → Bool
is_within current total = leb total 0 || leb current total

abbrev pub within_event : Event → Bool
within_event (next_snapshot s) = is_within s.phase_current s.phase_total
within_event complete = true
within_event stream_error = true

abbrev pub is_job_within : Job → Bool
is_job_within job = is_within job.phase_current job.phase_total

pub record IsInBounds (run : Run) : Type 0 where
  pub job : is_job_within run.job ≡ true
  pub row : is_job_within run.row ≡ true
  pub events : every within_event run.events ≡ true

pub every-append {ℓ} :
    {A : Type ℓ} (p : A → Bool) (xs ys : List A) → every p (xs ++ ys) ≡ (every p xs && every p ys)
every-append p [] ys = refl
every-append p (x ∷ xs) ys = ground (arith, every-append p xs ys)

persist-IsInBounds :
    (patch : Patch) (run : Run)
    → every within_event run.events ≡ true
    → is_job_within (patch.assign run.job) ≡ true
    → IsInBounds (persist patch run)
unfolding persist to_snapshot
persist-IsInBounds patch run events within = record {
  job = within;
  row = within;
  events = rw (every-append within_event run.events _, events, within);
}

advanced-within :
    (total current delta : ℕ)
    → is_within current total ≡ true
    → is_within (advanced total current delta) total ≡ true
advanced-within total current delta h = ground arith

record IsGood (r : Reporter) : Type 0 where
  bounds : IsInBounds r.run
  reporter : is_within r.current r.total ≡ true

report-IsGood : (call : Call) (r : Reporter) → IsGood r → IsGood (report call r)
unfolding report
report-IsGood (start_phase phase total label message) r good = record {
  bounds =
      persist-IsInBounds
        (phase_patch phase (at_least_zero total) message (label_or label (get_phase_label phase)))
        r.run good.bounds.events (ground arith);
  reporter = ground arith;
}
report-IsGood (advance delta message) r good =
    let within = advanced-within r.total r.current (at_least_zero delta) good.reporter in
    record {
      bounds =
          persist-IsInBounds
            (progress_patch r.current_phase (advanced r.total r.current (at_least_zero delta))
              r.total message)
            r.run good.bounds.events within;
      reporter = within;
    }
report-IsGood (change_message message) r good = record {
  bounds =
      persist-IsInBounds (progress_patch r.current_phase r.current r.total (set_message message))
        r.run good.bounds.events good.reporter;
  reporter = good.reporter;
}
report-IsGood (complete_phase message) r good = record {
  bounds =
      persist-IsInBounds (progress_patch r.current_phase r.total r.total message) r.run
        good.bounds.events (ground arith);
  reporter = ground arith;
}

end_run-IsInBounds :
    (now : ℕ) (end : Reporter × Outcome Patch)
    → Ends IsGood (IsClosing now) end
    → IsInBounds (end_run now end)
end_run-IsInBounds now (r, returns patch) (good, closing) =
    persist-IsInBounds patch r.run good.bounds.events
      (rw (closing.current r.run.job, closing.total r.run.job) good.bounds.job)
end_run-IsInBounds now (r, throws thrown) good =
    persist-IsInBounds (failure_patch now thrown) r.run good.bounds.events good.bounds.job

save_files-IsGood :
    (saved : List File → List File) (r : Reporter) → IsGood r → IsGood (save_files saved r)
save_files-IsGood saved r good = record {
  bounds = record { job = good.bounds.job; row = good.bounds.row; events = good.bounds.events };
  reporter = good.reporter;
}

started_reporter-IsGood :
    (start : ℕ) (job : Job) (files : List File)
    → is_job_within job ≡ true
    → IsGood (started_reporter start job files)
unfolding started_reporter
started_reporter-IsGood start job files within = record {
  bounds = persist-IsInBounds (start_patch start job) (new_run job files) refl within;
  reporter = refl;
}

-- Where the stored progress of a job is within its phase, so is the progress of every snapshot that
-- a run of it sends, and of the row that it leaves, whatever the other services report.
pub run_stored-IsInBounds :
    (services : Services) (files : List File) (start finish : ℕ) (job : Job)
    → is_job_within job ≡ true
    → IsInBounds (run_stored services files start finish job)
unfolding run_stored
run_stored-IsInBounds services files start finish job within =
    end_run-IsInBounds finish
      (work_on services finish job job.job_type (started_reporter start job files))
      (work_on-Leads IsGood report-IsGood save_files-IsGood services finish job job.job_type
        (started_reporter start job files) (started_reporter-IsGood start job files within))
