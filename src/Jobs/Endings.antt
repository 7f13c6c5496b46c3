-- ===== src/Jobs/Endings.antt =====
-- Every run of a job comes to an end that its row and its stream show.
use content_pool_next.Base.{
  ℕ, String, string_eq, false, none, some, List, [], ◌∷◌, ◌++◌, find, contains, same, same_refl,
  ◌≡◌, refl, sym, ◌∙◌, ◌⊎◌, inl, inr, arith, str_eq_iff, Bool-cases, find_sound,
}
use mathlib.Core.List.{append_assoc}
use content_pool_next.Jobs.{
  File, completed, failed, Job, to_snapshot, Event, next_snapshot, complete, Patch, Run, persist,
  Reporter, Call, start_phase, advance, change_message, complete_phase, report,
}
use content_pool_next.Jobs.Running.{
  save_files, Service, Outcome, returns, throws, Services, failure_text, end_run, work_on,
  run_stored, started_reporter, replace_row, on_stream, removed, run_job,
}
use content_pool_next.Jobs.Steps.{IsClosing, Ends, work_on-Leads}

-- A row of the same job as the stored one.
pub record IsOf (stored job : Job) : Type 0 where
  pub id : job.id ≡ stored.id
  pub acp_id : job.acp_id ≡ stored.acp_id
  pub job_type : job.job_type ≡ stored.job_type

-- A row that has come to its end: done, or failed with the text of the error.
pub record IsEnded (now : ℕ) (job : Job) : Type 0 where
  pub status :
      ((job.status ≡ completed) × (job.error ≡ none))
      ⊎ ((job.status ≡ failed) × ((text : String) × (job.error ≡ some text)))
  pub finished : job.finished_at ≡ some now

module _ (stored : Job) where
  abbrev IsGood : Reporter → Type 0
  IsGood r = IsOf stored r.run.job

  report-IsGood : (call : Call) (r : Reporter) → IsGood r → IsGood (report call r)
  unfolding report persist
  report-IsGood (start_phase phase total label message) r good = record {
    id = good.id;
    acp_id = good.acp_id;
    job_type = good.job_type;
  }
  report-IsGood (advance delta message) r good = record {
    id = good.id;
    acp_id = good.acp_id;
    job_type = good.job_type;
  }
  report-IsGood (change_message message) r good = record {
    id = good.id;
    acp_id = good.acp_id;
    job_type = good.job_type;
  }
  report-IsGood (complete_phase message) r good = record {
    id = good.id;
    acp_id = good.acp_id;
    job_type = good.job_type;
  }

  -- where a run ends: its row, and the last call on the stream before it is closed
  pub record HasEnded (now : ℕ) (run : Run) : Type 0 where
    pub of_job : IsOf stored run.row
    pub ended : IsEnded now run.row
    pub shown :
        (before : List Event) × (run.events ≡ before ++ next_snapshot (to_snapshot run.row) ∷ [])

  end_run-HasEnded :
      (now : ℕ) (end : Reporter × Outcome Patch)
      → Ends IsGood (IsClosing now) end
      → HasEnded now (end_run now end)
  unfolding persist
  end_run-HasEnded now (r, returns patch) (good, closing) = record {
    of_job = record {
      id = closing.id r.run.job ∙ good.id;
      acp_id = closing.acp_id r.run.job ∙ good.acp_id;
      job_type = closing.job_type r.run.job ∙ good.job_type;
    };
    ended = record {
      status = inl (closing.status r.run.job, closing.error r.run.job);
      finished = closing.finished r.run.job;
    };
    shown = (r.run.events, rw closing.message.1 refl);
  }
  end_run-HasEnded now (r, throws thrown) good = record {
    of_job = record { id = good.id; acp_id = good.acp_id; job_type = good.job_type };
    ended = record { status = inr (refl, (failure_text thrown, refl)); finished = refl };
    shown = (r.run.events, refl);
  }

  save_files-IsGood :
      (saved : List File → List File) (r : Reporter) → IsGood r → IsGood (save_files saved r)
  save_files-IsGood saved r good = good

  started_reporter-IsGood :
      (start : ℕ) (files : List File) → IsGood (started_reporter start stored files)
  unfolding started_reporter persist
  started_reporter-IsGood start files = record { id = refl; acp_id = refl; job_type = refl }

  pub run_stored-HasEnded :
      (services : Services) (files : List File) (start finish : ℕ)
      → HasEnded finish (run_stored services files start finish stored)
  unfolding run_stored
  run_stored-HasEnded services files start finish =
      end_run-HasEnded finish
        (work_on services finish stored stored.job_type (started_reporter start stored files))
        (work_on-Leads IsGood report-IsGood save_files-IsGood services finish stored stored.job_type
          (started_reporter start stored files) (started_reporter-IsGood start files))

-- A row is found again under its id, and the rows of other ids are as before.
pub find-replace_row :
    (row stored : Job) (id : String) (rows : List Job)
    → row.id ≡ id
    → find (λ j. same j.id id) rows ≡ some stored
    → find (λ j. same j.id id) (replace_row row rows) ≡ some row
find-replace_row row stored id [] e f = absurd (ground arith)
find-replace_row row stored id (j ∷ rows) e f = elim (Bool-cases (same j.id row.id)) [
  | inl own ↦ rw (own, e) (rw (same_refl id) refl)
  | inr foreign ↦
      let skipped : same j.id id ≡ false = (rw e at foreign) in
      rw (foreign, skipped) (find-replace_row row stored id rows e (rw skipped at f))
]

pub find-replace_row-other :
    (row : Job) (other : String) (rows : List Job)
    → same row.id other ≡ false
    → find (λ j. same j.id other) (replace_row row rows) ≡ find (λ j. same j.id other) rows
find-replace_row-other row other [] h = refl
find-replace_row-other row other (j ∷ rows) h = elim (Bool-cases (same j.id row.id)) [
  | inl own ↦
      let one : j.id ≡ row.id = (str_eq_iff j.id row.id).0 own in
      let skipped : same j.id other ≡ false = rw one h in
      rw (own, h, skipped) (find-replace_row-other row other rows h)
  | inr foreign ↦ rw (foreign, find-replace_row-other row other rows h)
]

on_stream-append :
    (id : String) (calls more : List Event)
    → on_stream id (calls ++ more) ≡ on_stream id calls ++ on_stream id more
on_stream-append id [] more = refl
on_stream-append id (e ∷ calls) more = rw (on_stream-append id calls more)

removed-absent : (id : String) (ids : List String) → contains id ids ≡ false → removed id ids ≡ ids
removed-absent id [] h = refl
removed-absent id (j ∷ ids) h = ground (arith, removed-absent id ids)

-- A run of a stored job that is not under way ends: the row of the job is completed without an error
-- or failed with one, and finished at the end of the run, the last snapshot on the stream is that of
-- the row, and the stream is closed. The rows of other jobs are as before, whatever the services make
-- of the files, and afterwards the same jobs are under way as before.
pub run_job-ends :
    (services : Services) (start finish : ℕ) (id other : String) (s : Service) (stored : Job)
    → same id other ≡ false
    → contains id s.running_jobs ≡ false
    → find (λ j. same j.id id) s.rows ≡ some stored
    → (row : Job) × (find (λ j. same j.id id) (run_job services start finish id s).rows ≡ some row)
      × IsOf stored row
      × IsEnded finish row
      × ((before : List (String × Event)) × ((run_job services start finish id s).events
            ≡ before ++ on_stream id (next_snapshot (to_snapshot row) ∷ complete ∷ [])))
      × (find (λ j. same j.id other) (run_job services start finish id s).rows
          ≡ find (λ j. same j.id other) s.rows)
      × ((run_job services start finish id s).running_jobs ≡ s.running_jobs)
unfolding run_job
run_job-ends services start finish id other s stored h idle found =
    let run = run_stored services s.files start finish stored in
    let end = run_stored-HasEnded stored services s.files start finish in
    let own : run.row.id ≡ id =
      end.of_job.id
      ∙ (str_eq_iff stored.id id).0 (find_sound (λ j. same j.id id) s.rows stored found) in
    rw (idle, found)
      (
        run.row,
        find-replace_row run.row stored id s.rows own found,
        end.of_job,
        end.ended,
        (
          s.events ++ on_stream id end.shown.0,
          rw (end.shown.1, append_assoc end.shown.0)
              (rw (on_stream-append id end.shown.0)
                (sym (append_assoc s.events (on_stream id end.shown.0) _))),
        ),
        find-replace_row-other run.row other s.rows (rw own h),
        rw (same_refl id) (removed-absent id s.running_jobs idle),
      )
