-- ===== src/Uploads/Outcomes.antt =====
-- What an upload that succeeds leaves.
use content_pool_next.Base.{
  ℕ, String, string_eq, Bool, false, Option, List, [], ◌++◌, contains, is_empty, All, IsDistinct,
  ◌≡◌, refl, sym, ap, ◌∙◌, arith, if◌then◌else◌,
}
use content_pool_next.Base.Text.{Text, text_eq}
use content_pool_next.Base.Http.{Result, ok, err, bad_request, throw_if, >>=-eq-ok, ok_injective}
use content_pool_next.Uploads.{
  resolve_conflict_strategy, resolve_incoming_files, World, Upload, AcpFile, Store, Disk, Commit,
  UploadConflictStrategy, stage_all, files_of, without, commit, settle, after_staging,
  assert_no_rejected_conflicts,
}
use content_pool_next.Uploads.Expansion.{Entry, expand}
use content_pool_next.Uploads.Requests.{
  get_acp_or_fail, UploadRequest, accept, after_accepting, upload_multiple,
}
use content_pool_next.Uploads.Names.{upload_keys, keeps_both, resolve_incoming_files-IsDistinct}
use content_pool_next.Uploads.Replacing.{ids, file_keys, commit-stored}
use content_pool_next.Uploads.Rows.{
  rows_from, stage_all-rows, files_of-replaced, replaced-IsDistinct,
}

module _ (world : World) where
  module _ (is_uuid : String → Bool) (unzip : Text → Option (List Entry)) where
    accept-ok :
        (acps : List String) (read : List AcpFile) (request : UploadRequest)
        (strategy : UploadConflictStrategy) (files : List Upload)
        → accept world is_uuid unzip acps read request ≡ ok (strategy, files)
        → (resolve_conflict_strategy world request.conflict_strategy ≡ ok strategy)
          × ((incoming : List Upload) × (resolve_incoming_files world strategy incoming ≡ ok files))
    unfolding accept
    accept-ok acps read request strategy files e =
        let (found, resolved, e₁) =
          >>=-eq-ok (resolve_conflict_strategy world request.conflict_strategy) _ e in
        let (_, _, e₂) = >>=-eq-ok (throw_if (is_empty request.files) bad_request) _ e₁ in
        let (_, _, e₃) = >>=-eq-ok (get_acp_or_fail world is_uuid unzip acps request.acp_id) _ e₂ in
        let (incoming, _, e₄) =
          >>=-eq-ok
            (if request.expand_archives
              then expand world.lower unzip request.files
              else ok request.files)
            _ e₃ in
        let (taken, named, e₅) = >>=-eq-ok (resolve_incoming_files world found incoming) _ e₄ in
        let (_, _, last) =
          >>=-eq-ok (assert_no_rejected_conflicts world found taken (files_of request.acp_id read))
            _ e₅ in
        let both : (found, taken) ≡ (strategy, files) = ok_injective last in
        let same_strategy : found ≡ strategy =
          ap (λ (p : UploadConflictStrategy × List Upload). p.0) both in
        let same_files : taken ≡ files =
          ap (λ (p : UploadConflictStrategy × List Upload). p.1) both in
        rw (← same_strategy, ← same_files) (resolved, (incoming, named))

    -- What a success comes to: distinct names, and the files that stay with the saved ones.
    abbrev IsOutcome : String → Store → Store → List AcpFile → Type 0
    IsOutcome acp_id s result saved =
        IsDistinct (file_keys world (files_of acp_id result.files))
        × ((replaced : List AcpFile) × (files_of acp_id result.files
              ≡ without replaced (files_of acp_id s.files) ++ saved))

    module _ (c : Commit) (strategy : UploadConflictStrategy) (acp_id : String)
        (files : List Upload) (s result : Store) (saved : List AcpFile)
        (k : keeps_both strategy ≡ false)
        (new : (n : ℕ) → contains (world.new_id n) (ids s.files) ≡ false)
        (before : IsDistinct (file_keys world (files_of acp_id s.files)))
        (distinct : IsDistinct (upload_keys world files))
        (given : All (λ key. is_empty key ≡ false) (upload_keys world files)) where
      settle-IsOutcome :
          (staged : List AcpFile) (disk : Disk) (end : Result (List AcpFile))
          → commit world c strategy acp_id files s.files ≡ end
          → staged ≡ rows_from world acp_id 0 files
          → settle staged (record s { disk = disk }) end ≡ (result, ok saved)
          → IsOutcome acp_id s result saved
      settle-IsOutcome staged disk (err thrown) done rows e =
          let refused : err thrown ≡ ok saved = ap (λ (p : Store × Result (List AcpFile)). p.1) e in
          absurd (ground arith)
      settle-IsOutcome staged disk (ok replaced) done rows e =
          let left : without replaced (s.files ++ staged) ≡ result.files =
            ap (λ (p : Store × Result (List AcpFile)). p.0.files) e in
          let out : staged ≡ saved =
            ok_injective (ap (λ (p : Store × Result (List AcpFile)). p.1) e) in
          let parted = files_of-replaced world acp_id replaced s.files files (λ n.
            commit-stored world files acp_id given c strategy s.files replaced (world.new_id n) done
              (new n)) in
          rw (← left, ← out, rows, parted)
            (
              replaced-IsDistinct world acp_id c strategy files s.files replaced k done before
                  distinct given,
              (replaced, refl),
            )

      after_staging-IsOutcome :
          (out : Disk × Result (List AcpFile))
          → stage_all world acp_id 0 [] files s.disk ≡ out
          → after_staging world c strategy acp_id files s out ≡ (result, ok saved)
          → IsOutcome acp_id s result saved
      after_staging-IsOutcome (disk, ok staged) ran e =
          settle-IsOutcome staged disk (commit world c strategy acp_id files s.files) refl
            (stage_all-rows world acp_id 0 [] files s.disk disk staged ran) e
      after_staging-IsOutcome (disk, err thrown) ran e =
          let refused : err thrown ≡ ok saved = ap (λ (p : Store × Result (List AcpFile)). p.1) e in
          absurd (ground arith)

    after_accepting-IsOutcome :
        (acps : List String) (read : List AcpFile) (c : Commit) (request : UploadRequest)
        (strategy : UploadConflictStrategy) (s result : Store) (saved : List AcpFile)
        (accepted : Result (UploadConflictStrategy × List Upload))
        → resolve_conflict_strategy world request.conflict_strategy ≡ ok strategy
        → keeps_both strategy ≡ false
        → ((n : ℕ) → contains (world.new_id n) (ids s.files) ≡ false)
        → IsDistinct (file_keys world (files_of request.acp_id s.files))
        → accept world is_uuid unzip acps read request ≡ accepted
        → after_accepting world is_uuid unzip c request.acp_id s accepted ≡ (result, ok saved)
        → IsOutcome request.acp_id s result saved
    after_accepting-IsOutcome acps read c request strategy s result saved (err thrown) chosen k new
          before ran e =
        let refused : err thrown ≡ ok saved = ap (λ (p : Store × Result (List AcpFile)). p.1) e in
        absurd (ground arith)
    after_accepting-IsOutcome acps read c request strategy s result saved (ok (found, files)) chosen
          k new before ran e =
        let (resolved, (incoming, named)) = accept-ok acps read request found files ran in
        let chosen_one : strategy ≡ found = ok_injective (sym chosen ∙ resolved) in
        let not_both : keeps_both found ≡ false = rw (← chosen_one) k in
        let (distinct, given) =
          resolve_incoming_files-IsDistinct world found incoming files not_both named in
        after_staging-IsOutcome c found request.acp_id files s result saved not_both new before
          distinct given (stage_all world request.acp_id 0 [] files s.disk) refl e

    -- Where the names of an ACP's files are distinct but for case and the white space around them,
    -- they still are after an upload that succeeds and is not to keep both, and the files are those
    -- that stay with the saved ones behind them, provided that new ids are not in use.
    pub upload_multiple-IsDistinct :
        (acps : List String) (read : List AcpFile) (c : Commit) (request : UploadRequest)
        (strategy : UploadConflictStrategy) (s result : Store) (saved : List AcpFile)
        → resolve_conflict_strategy world request.conflict_strategy ≡ ok strategy
        → keeps_both strategy ≡ false
        → ((n : ℕ) → contains (world.new_id n) (ids s.files) ≡ false)
        → IsDistinct (file_keys world (files_of request.acp_id s.files))
        → upload_multiple world is_uuid unzip acps read c request s ≡ (result, ok saved)
        → IsDistinct (file_keys world (files_of request.acp_id result.files))
          × ((replaced : List AcpFile) × (files_of request.acp_id result.files
                ≡ without replaced (files_of request.acp_id s.files) ++ saved))
    unfolding upload_multiple
    upload_multiple-IsDistinct acps read c request strategy s result saved chosen k new before e =
        after_accepting-IsOutcome acps read c request strategy s result saved
          (accept world is_uuid unzip acps read request) chosen k new before refl e
