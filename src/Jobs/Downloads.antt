-- ===== src/Jobs/Downloads.antt =====
-- An archive is there to be downloaded once its job has run, and to nobody before or elsewhere.
use content_pool_next.Base.{
  ap, ℕ, String, string_eq, str_eq, true, false, Option, some, List, find, find_sound, contains,
  same, same_refl, ◌≡◌, refl, arith, ◌∙◌, str_eq_iff,
}
use content_pool_next.Base.Text.{Text}
use content_pool_next.Base.Http.{ok, err, conflict, not_found}
use content_pool_next.Jobs.{
  File, JobType, Status, pending, running, failed, archive_download, Job, Call, persist, report_all,
  completed,
}
use content_pool_next.Jobs.Running.{
  Archive, Work, and_then, perform, end_run, Service, Services, returns, save_files, work_on,
  run_stored, run_job, started_reporter, archive_patch,
}
use content_pool_next.Jobs.Requests.{download_archive, get_job_for_acp, is_active, is_completed}
use content_pool_next.Jobs.Endings.{run_stored-HasEnded, find-replace_row}

run_stored-archive :
    (services : Services) (files : List File) (start finish : ℕ) (job : Job) (calls : List Call)
    (saved : List File → List File) (archive : Archive)
    → job.job_type ≡ archive_download
    → services.create_files_zip_archive job.acp_id job.uploaded_file_ids
      ≡ (calls, saved, returns archive)
    → run_stored services files start finish job
      ≡ persist
          (archive_patch finish archive)
          (save_files saved (report_all calls (started_reporter start job files))).run
unfolding run_stored work_on
run_stored-archive services files start finish job calls saved archive type made =
    let r = started_reporter start job files in
    ap (λ (t : JobType). end_run finish (work_on services finish job t r)) type
    ∙ ap
        (λ (work : Work Archive).
          end_run finish
            (and_then (perform work) (λ archive r. (r, returns (archive_patch finish archive))) r))
        made

module _ (read_file : String → Option Text) (acp_id id : String) (s : Service) (row : Job)
    (found : find (λ j. same j.id id) s.rows ≡ some row) where
  download-ready :
      (path name : String) (content : Text)
      → row.acp_id ≡ acp_id
      → row.job_type ≡ archive_download
      → row.status ≡ completed
      → row.archive_file_path ≡ some path
      → row.archive_file_name ≡ some name
      → str_eq path "" ≡ false
      → str_eq name "" ≡ false
      → read_file path ≡ some content
      → download_archive read_file acp_id id s ≡ ok (content, name)
  unfolding download_archive get_job_for_acp
  download-ready path name content acp type status at_path at_name path_given name_given file =
      rw
        (found, acp, same_refl acp_id, type, status, at_path, at_name, path_given, name_given, file)
        refl

  download-foreign :
      same row.acp_id acp_id ≡ false → download_archive read_file acp_id id s ≡ err not_found
  unfolding download_archive get_job_for_acp
  download-foreign foreign = rw (found, foreign) refl

  download-early :
      row.acp_id ≡ acp_id
      → row.job_type ≡ archive_download
      → is_active row.status ≡ true
      → download_archive read_file acp_id id s ≡ err conflict
  unfolding download_archive get_job_for_acp
  download-early acp type active =
      rw (found, acp, same_refl acp_id, type, not_completed row.status active) refl
    where
      not_completed : (status : Status) → is_active status ≡ true → is_completed status ≡ false
      not_completed pending h = refl
      not_completed running h = refl
      not_completed completed h = absurd (ground arith)
      not_completed failed h = refl

-- Once a stored archive job that is active and not under way has run, and the archive was written to
-- a named file, a download for its ACP is exactly that file under that name, and for another ACP
-- there is no such job; before the run the download is refused.
pub run_job-download :
    (services : Services) (start finish : ℕ) (id other : String) (s : Service) (job : Job)
    (calls : List Call) (saved : List File → List File) (archive : Archive)
    (read_file : String → Option Text) (content : Text)
    → same job.acp_id other ≡ false
    → contains id s.running_jobs ≡ false
    → find (λ j. same j.id id) s.rows ≡ some job
    → job.job_type ≡ archive_download
    → is_active job.status ≡ true
    → services.create_files_zip_archive job.acp_id job.uploaded_file_ids
      ≡ (calls, saved, returns archive)
    → str_eq archive.file_path "" ≡ false
    → str_eq archive.file_name "" ≡ false
    → read_file archive.file_path ≡ some content
    → (download_archive read_file job.acp_id id (run_job services start finish id s)
        ≡ ok (content, archive.file_name))
      × (download_archive read_file other id (run_job services start finish id s) ≡ err not_found)
      × (download_archive read_file job.acp_id id s ≡ err conflict)
unfolding run_job persist
run_job-download services start finish id other s job calls saved archive read_file content foreign
      idle found type active made path name file =
    let run = run_stored services s.files start finish job in
    let end = run_stored-HasEnded job services s.files start finish in
    let own : run.row.id ≡ id =
      end.of_job.id ∙ (str_eq_iff job.id id).0 (find_sound (λ j. same j.id id) s.rows job found) in
    let there = find-replace_row run.row job id s.rows own found in
    let result =
      run_stored-archive services s.files start finish job calls saved archive type made in
    rw (idle, found)
      (
        download-ready read_file job.acp_id id _ run.row there archive.file_path archive.file_name
            content end.of_job.acp_id (end.of_job.job_type ∙ type) (rw result refl) (rw result refl)
            (rw result refl) path name file,
        download-foreign read_file other id _ run.row there (rw end.of_job.acp_id foreign),
        download-early read_file job.acp_id id s job found refl type active,
      )
