-- ===== src/Jobs/Activity.antt =====
-- An ACP has at most one job that waits or runs.
use content_pool_next.Base.{
  ℕ, ◌+◌, ◌≤◌, String, string_eq, Bool, false, ◌&&◌, Option-cases, List, [], ◌∷◌, ◌++◌, filter,
  find, any, contains, length, same, is_empty, ◌≡◌, refl, arith, Bool-cases, inl, inr, str_eq_iff,
}
use content_pool_next.Base.Http.{Result, ok, err, bad_request, throw_if, >>=-eq-ok, ok_injective}
use content_pool_next.Jobs.{Job, Snapshot}
use content_pool_next.Jobs.Running.{Service, Services, replace_row, run_job, run_stored}
use content_pool_next.Jobs.Requests.{
  is_active, is_active_of, ensure_no_active_job, Order, download_job, normalized_ids, count_files,
  with_job, create_and_start_job, create_and_start_download_job, Request, create_upload,
  create_download, run_started, after, handle, handle_all,
}
use content_pool_next.Jobs.Endings.{IsEnded, run_stored-HasEnded}

-- how many jobs of the ACP wait or run
abbrev pub active_jobs : String → List Job → ℕ
active_jobs acp_id rows = length (filter (is_active_of acp_id) rows)

abbrev pub IsSingle : List Job → Type 0
IsSingle rows = (acp_id : String) → active_jobs acp_id rows ≤ 1

none_active :
    (acp_id : String) (rows : List Job)
    → any (is_active_of acp_id) rows ≡ false
    → active_jobs acp_id rows ≡ 0
none_active acp_id [] h = refl
none_active acp_id (j ∷ rows) h = elim (Bool-cases (is_active_of acp_id j)) [
  | inl busy ↦ absurd (ground arith)
  | inr idle ↦ rw idle (none_active acp_id rows (rw idle at h))
]

active_jobs-append :
    (acp_id : String) (rows more : List Job)
    → active_jobs acp_id (rows ++ more) ≡ active_jobs acp_id rows + active_jobs acp_id more
active_jobs-append acp_id [] more = omega arith
active_jobs-append acp_id (j ∷ rows) more = elim (Bool-cases (is_active_of acp_id j)) [
  | inl busy ↦ rw busy (omega (arith, active_jobs-append acp_id rows more))
  | inr idle ↦ rw idle (active_jobs-append acp_id rows more)
]

active_jobs-one : (acp_id : String) (job : Job) → active_jobs acp_id (job ∷ []) ≤ 1
active_jobs-one acp_id job = elim (Bool-cases (is_active_of acp_id job)) [
  | inl busy ↦ rw busy (omega arith)
  | inr idle ↦ rw idle (omega arith)
]

-- A new job is the only active one of its ACP, where there was none.
with_new_job :
    (rows : List Job) (job : Job)
    → IsSingle rows
    → any (is_active_of job.acp_id) rows ≡ false
    → IsSingle (rows ++ job ∷ [])
with_new_job rows job h free acp_id = elim (Bool-cases (same job.acp_id acp_id)) [
  | inl own ↦
      let one : job.acp_id ≡ acp_id = (str_eq_iff job.acp_id acp_id).0 own in
      let none_before : active_jobs acp_id rows ≡ 0 = none_active acp_id rows (rw (← one) free) in
      rw active_jobs-append (omega (arith, none_before, active_jobs-one acp_id job))
  | inr foreign ↦
      let idle : is_active_of acp_id job ≡ false = rw foreign refl in
      rw (active_jobs-append, idle) (omega (arith, h acp_id))
]

-- Ending a job adds no active one.
replace_row-le :
    (acp_id : String) (row : Job) (rows : List Job)
    → is_active row.status ≡ false
    → active_jobs acp_id (replace_row row rows) ≤ active_jobs acp_id rows
replace_row-le acp_id row [] h = omega arith
replace_row-le acp_id row (j ∷ rows) h =
    let rest = replace_row-le acp_id row rows h in
    elim (Bool-cases (same j.id row.id)) [
      | inl own ↦
          let idle : is_active_of acp_id row ≡ false = rw h (and_false (same row.acp_id acp_id)) in
          rw (own, idle)
            (elim (Bool-cases (is_active_of acp_id j)) [
              | inl busy ↦ rw busy (omega (arith, rest))
              | inr off ↦ rw off rest
            ])
      | inr foreign ↦ rw foreign (elim (Bool-cases (is_active_of acp_id j)) [
        | inl busy ↦ rw busy (omega (arith, rest))
        | inr off ↦ rw off rest
      ])
    ]
  where
    and_false : (b : Bool) → (b && false) ≡ false
    and_false b = ground arith

ended_inactive : (now : ℕ) (job : Job) → IsEnded now job → is_active job.status ≡ false
ended_inactive now job h = elim h.status [
  | inl done ↦ rw done.0 refl
  | inr broken ↦ rw broken.0 refl
]

ensure_no_active_job-ok :
    (acp_id : String) (rows : List Job)
    → ensure_no_active_job acp_id rows ≡ ok tt
    → any (is_active_of acp_id) rows ≡ false
unfolding ensure_no_active_job
ensure_no_active_job-ok acp_id rows e = ground arith

after-IsSingle :
    (s : Service) (r : Result (Snapshot × Service))
    → IsSingle s.rows
    → ((created : Snapshot × Service) → r ≡ ok created → IsSingle created.1.rows)
    → IsSingle (after s r).rows
after-IsSingle s (err thrown) h k = h
after-IsSingle s (ok created) h k = k created refl

with_job-IsSingle :
    (job : Job) (s : Service)
    → IsSingle s.rows
    → ensure_no_active_job job.acp_id s.rows ≡ ok tt
    → IsSingle (with_job job s).1.rows
unfolding with_job
with_job-IsSingle job s h free =
    with_new_job s.rows job h (ensure_no_active_job-ok job.acp_id s.rows free)

create_and_start_job-IsSingle :
    (order : Order) (run_cleanup : Bool) (s : Service) (created : Snapshot × Service)
    → IsSingle s.rows
    → create_and_start_job order run_cleanup s ≡ ok created
    → IsSingle created.1.rows
unfolding create_and_start_job
create_and_start_job-IsSingle order run_cleanup s created h e =
    let (_, checked, last) = >>=-eq-ok _ _ e in
    let (_, free, _) = >>=-eq-ok _ _ checked in
    let (_, _, idle) =
      >>=-eq-ok (throw_if (is_empty (normalized_ids order.file_ids)) bad_request) _ free in
    rw (← ok_injective last) (with_job-IsSingle _ s h idle)

create_and_start_download_job-IsSingle :
    (order : Order) (s : Service) (created : Snapshot × Service)
    → IsSingle s.rows
    → create_and_start_download_job order s ≡ ok created
    → IsSingle created.1.rows
unfolding create_and_start_download_job
create_and_start_download_job-IsSingle order s created h e =
    let (_, idle, rest) = >>=-eq-ok (ensure_no_active_job order.acp_id s.rows) _ e in
    let (count, counted, last) =
      >>=-eq-ok (count_files order.acp_id (normalized_ids order.file_ids) s.files) _ rest in
    let job = download_job order (normalized_ids order.file_ids) count in
    let made : with_job job s ≡ created = ok_injective last in
    rw (← made) (with_job-IsSingle job s h idle)

handle-IsSingle :
    (services : Services) (request : Request) (s : Service)
    → IsSingle s.rows
    → IsSingle (handle services request s).rows
unfolding handle create_and_start_job create_and_start_download_job with_job run_job
handle-IsSingle services (create_upload order run_cleanup) s h =
    after-IsSingle s (create_and_start_job order run_cleanup s) h
      (λ created. create_and_start_job-IsSingle order run_cleanup s created h)
handle-IsSingle services (create_download order) s h =
    after-IsSingle s (create_and_start_download_job order s) h
      (λ created. create_and_start_download_job-IsSingle order s created h)
handle-IsSingle services (run_started id start finish) s h =
    elim (Bool-cases (contains id s.running_jobs)) [
      | inl busy ↦ rw busy h
      | inr idle ↦ rw idle (elim (Option-cases (find (λ j. same j.id id) s.rows)) [
        | inl missing ↦ rw missing h
        | inr (job, found) ↦ rw found (λ acp_id.
            let run = run_stored services s.files start finish job in
            let end = run_stored-HasEnded job services s.files start finish in
            let less =
              replace_row-le acp_id run.row s.rows (ended_inactive finish run.row end.ended) in
            omega (arith, less, h acp_id))
      ])
    ]

-- Whatever is asked for, and whatever runs, one after the other, an ACP has at most one job that
-- waits or runs, where it had at most one before.
pub handle_all-IsSingle :
    (services : Services) (requests : List Request) (s : Service)
    → IsSingle s.rows
    → IsSingle (handle_all services requests s).rows
unfolding handle_all
handle_all-IsSingle services [] s h = h
handle_all-IsSingle services (request ∷ requests) s h =
    handle_all-IsSingle services requests (handle services request s)
      (handle-IsSingle services request s h)
