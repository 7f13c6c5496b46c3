-- ===== src/Jobs/Steps.antt =====
-- What holds along the parts of a run, whatever the other services report and however they end.
use content_pool_next.Base.{
  ℕ, String, List, [], ◌∷◌, Option, some, none, ◌≡◌, refl, Bool-cases, inl, inr, length, ◌==◌,
}
use content_pool_next.Jobs.{
  File, completed, JobType, upload_process, archive_download, Job, set_message, Patch, Reporter,
  Call, report, report_all,
}
use content_pool_next.Jobs.Running.{
  save_files, Outcome, returns, throws, Work, Archive, Cleanup, Services, Step, and_then, perform,
  ordered_files, load_uploaded_files, cleanup_step, archive_patch, upload_patch, work_on,
}

-- A patch that completes a job at a time: it leaves what it does not report.
pub record IsClosing (now : ℕ) (patch : Patch) : Type 0 where
  pub status : (job : Job) → (patch.assign job).status ≡ completed
  pub finished : (job : Job) → (patch.assign job).finished_at ≡ some now
  pub error : (job : Job) → (patch.assign job).error ≡ none
  pub id : (job : Job) → (patch.assign job).id ≡ job.id
  pub acp_id : (job : Job) → (patch.assign job).acp_id ≡ job.acp_id
  pub job_type : (job : Job) → (patch.assign job).job_type ≡ job.job_type
  pub current : (job : Job) → (patch.assign job).phase_current ≡ job.phase_current
  pub total : (job : Job) → (patch.assign job).phase_total ≡ job.phase_total
  pub message : (text : Option String) × (patch.message ≡ set_message text)

archive_patch-IsClosing : (now : ℕ) (archive : Archive) → IsClosing now (archive_patch now archive)
archive_patch-IsClosing now archive = record {
  status = λ job. refl;
  finished = λ job. refl;
  error = λ job. refl;
  id = λ job. refl;
  acp_id = λ job. refl;
  job_type = λ job. refl;
  current = λ job. refl;
  total = λ job. refl;
  message = (_, refl);
}

upload_patch-IsClosing :
    (now : ℕ) (sync summary : String) (cleanup : Cleanup)
    → IsClosing now (upload_patch now sync summary cleanup)
upload_patch-IsClosing now sync summary cleanup = record {
  status = λ job. refl;
  finished = λ job. refl;
  error = λ job. refl;
  id = λ job. refl;
  acp_id = λ job. refl;
  job_type = λ job. refl;
  current = λ job. refl;
  total = λ job. refl;
  message = (_, refl);
}

module _ (Good : Reporter → Type 0) where
  -- Where a part of a run ends: the reporter is good, and so is what comes back.
  abbrev pub Ends : {A : Type 0} → (A → Type 0) → Reporter × Outcome A → Type 0
  Ends Result (r, returns a) = Good r × Result a
  Ends Result (r, throws e) = Good r

  abbrev pub Leads : {A : Type 0} → Step A → (A → Type 0) → Type 0
  Leads step Result = (r : Reporter) → Good r → Ends Result (step r)

  and_then-Leads :
      {A B : Type 0} (first : Step A) (next : A → Step B) (P : A → Type 0) (Q : B → Type 0)
      → Leads first P
      → ((a : A) → P a → Leads (next a) Q)
      → Leads (and_then first next) Q
  and_then-Leads {A = A} {B = B} first next P Q h k r good = by_end (first r) (h r good)
    where
      by_end :
          (end : Reporter × Outcome A)
          → Ends P end
          → Ends Q (elim (end.1) [ returns a ↦ next a (end.0) | throws e ↦ (end.0, throws e) ])
      by_end (r, returns a) g = k a g.1 r g.0
      by_end (r, throws e) g = g

  module _ (kept : (call : Call) (r : Reporter) → Good r → Good (report call r))
      (saving : (saved : List File → List File) (r : Reporter)
        → Good r
        → Good (save_files saved r)) where
    pub report_all-Good : (calls : List Call) (r : Reporter) → Good r → Good (report_all calls r)
    unfolding report_all
    report_all-Good [] r good = good
    report_all-Good (call ∷ calls) r good = report_all-Good calls (report call r) (kept call r good)

    perform-Leads : {A : Type 0} (work : Work A) → Leads (perform work) (λ a. Unit {0})
    perform-Leads (calls, saved, returns a) r good =
        (saving saved (report_all calls r) (report_all-Good calls r good), tt)
    perform-Leads (calls, saved, throws e) r good =
        saving saved (report_all calls r) (report_all-Good calls r good)

    load_uploaded_files-Leads : (job : Job) → Leads (load_uploaded_files job) (λ a. Unit {0})
    unfolding load_uploaded_files
    load_uploaded_files-Leads job r good =
        elim (Bool-cases (
          length (ordered_files job.acp_id r.run.files job.uploaded_file_ids)
          == length job.uploaded_file_ids)) [
            | inl all ↦ rw all (good, tt)
            | inr missing ↦ rw missing good
          ]

    cleanup_step-Leads :
        (services : Services) (job : Job) → Leads (cleanup_step services job) (λ a. Unit {0})
    cleanup_step-Leads services job r good = elim (Bool-cases job.run_cleanup) [
      | inl wanted ↦ rw wanted (perform-Leads (services.cleanup_references job.acp_id) r good)
      | inr unwanted ↦ rw unwanted (good, tt)
    ]

    -- The work on a job keeps what each report keeps, and a patch that it returns completes the job.
    pub work_on-Leads :
        (services : Services) (now : ℕ) (job : Job) (type : JobType)
        → Leads (work_on services now job type) (IsClosing now)
    unfolding work_on
    work_on-Leads services now job archive_download =
        and_then-Leads
          (perform (services.create_files_zip_archive job.acp_id job.uploaded_file_ids))
          (λ archive r. (r, returns (archive_patch now archive))) (λ a. Unit {0}) (IsClosing now)
          (perform-Leads (services.create_files_zip_archive job.acp_id job.uploaded_file_ids))
          (λ archive done r good. (good, archive_patch-IsClosing now archive))
    work_on-Leads services now job upload_process =
        and_then-Leads _ _ (λ a. Unit {0}) (IsClosing now) (load_uploaded_files-Leads job)
          (λ uploaded loaded.
            and_then-Leads _ _ (λ a. Unit {0}) (IsClosing now)
              (perform-Leads (services.sync_index_from_files job.acp_id))
              (λ sync synced.
                and_then-Leads _ _ (λ a. Unit {0}) (IsClosing now)
                  (perform-Leads (services.auto_validate_uploaded_files job.acp_id uploaded))
                  (λ summary validated.
                    and_then-Leads (cleanup_step services job)
                      (λ cleanup r. (r, returns (upload_patch now sync summary cleanup)))
                      (λ a. Unit {0}) (IsClosing now) (cleanup_step-Leads services job)
                      (λ cleanup cleaned r good.
                        (good, upload_patch-IsClosing now sync summary cleanup)))))
