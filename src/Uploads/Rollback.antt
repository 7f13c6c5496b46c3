-- ===== src/Uploads/Rollback.antt =====
-- A refused upload leaves nothing behind.
use content_pool_next.Base.{
  ℕ, suc, String, Bool, true, false, Option, List, [], ◌∷◌, ◌++◌, map, contains, same, ◌≡◌, refl,
  sym, ap, ◌∙◌, arith, Bool-cases, inl, inr,
}
use mathlib.Core.List.{append-nil}
use content_pool_next.Base.Text.{Text, text_eq, text_beq_iff}
use content_pool_next.Base.Http.{HttpError, Result, ok, err, internal}
use content_pool_next.Uploads.{
  World, Upload, AcpFile, Disk, remove_path, write_file, remove_physical_files, Store, Commit,
  UploadConflictStrategy, staged_file, stage_upload, stage_all, commit, settle, after_staging,
}
use content_pool_next.Uploads.Expansion.{Entry}
use content_pool_next.Uploads.Requests.{UploadRequest, accept, after_accepting, upload_multiple}

abbrev pub paths : Disk → List Text
paths = map (λ entry. entry.0)

remove_path_comm :
    (p q : Text) (disk : Disk)
    → remove_path p (remove_path q disk) ≡ remove_path q (remove_path p disk)
remove_path_comm p q [] = refl
remove_path_comm p q (entry ∷ disk) = ground (arith, remove_path_comm p q disk)

remove_path_twice :
    (p : Text) (disk : Disk) → remove_path p (remove_path p disk) ≡ remove_path p disk
remove_path_twice p [] = refl
remove_path_twice p (entry ∷ disk) = ground (arith, remove_path_twice p disk)

remove_path-append :
    (p : Text) (front back : Disk)
    → remove_path p (front ++ back) ≡ remove_path p front ++ remove_path p back
remove_path-append p [] back = refl
remove_path-append p (entry ∷ front) back = ground (arith, remove_path-append p front back)

-- A path that the disk does not have is removed without effect.
remove_path_fresh :
    (p : Text) (disk : Disk) → contains p (paths disk) ≡ false → remove_path p disk ≡ disk
remove_path_fresh p [] h = refl
remove_path_fresh p (entry ∷ disk) h = ground (arith, remove_path_fresh p disk)

remove_path-write_file :
    (p content : Text) (disk : Disk)
    → remove_path p (write_file p content disk) ≡ remove_path p disk
remove_path-write_file p content disk =
    let own : same p p ≡ true = (text_beq_iff p p).1 refl in
    rw (remove_path-append p (remove_path p disk) ((p, content) ∷ []), own)
      (append-nil (remove_path p (remove_path p disk)) ∙ remove_path_twice p disk)

remove_physical_files-remove_path :
    (files : List AcpFile) (p : Text) (disk : Disk)
    → remove_physical_files files (remove_path p disk)
      ≡ remove_path p (remove_physical_files files disk)
remove_physical_files-remove_path [] p disk = refl
remove_physical_files-remove_path (f ∷ files) p disk =
    rw (remove_path_comm f.file_path p disk)
      (remove_physical_files-remove_path files p (remove_path f.file_path disk))

remove_physical_files-append :
    (files : List AcpFile) (f : AcpFile) (disk : Disk)
    → remove_physical_files (files ++ f ∷ []) disk
      ≡ remove_path f.file_path (remove_physical_files files disk)
remove_physical_files-append [] f disk = refl
remove_physical_files-append (g ∷ files) f disk =
    remove_physical_files-append files f (remove_path g.file_path disk)

-- The disk is what it was before, once the staged files are taken away.
abbrev IsRestored : Disk → Disk × Result (List AcpFile) → Type 0
IsRestored before (disk, ok staged) = remove_physical_files staged disk ≡ before
IsRestored before (disk, err thrown) = disk ≡ before

module _ (world : World) where
  stage_upload-can :
      (acp_id : String) (n : ℕ) (file : Upload) (disk : Disk)
      → world.writable (world.path_of n file) ≡ true
      → stage_upload world acp_id n file disk
        ≡ (write_file (world.path_of n file) file.buffer disk, ok (staged_file world acp_id n file))
  unfolding stage_upload
  stage_upload-can acp_id n file disk can = rw can refl

  stage_upload-cannot :
      (acp_id : String) (n : ℕ) (file : Upload) (disk : Disk)
      → world.writable (world.path_of n file) ≡ false
      → stage_upload world acp_id n file disk
        ≡ (remove_path (world.path_of n file) disk, err internal)
  unfolding stage_upload
  stage_upload-cannot acp_id n file disk cannot = rw cannot refl

  pub stage_all-can :
      (acp_id : String) (n : ℕ) (staged : List AcpFile) (file : Upload) (files : List Upload)
      (disk : Disk)
      → world.writable (world.path_of n file) ≡ true
      → stage_all world acp_id n staged (file ∷ files) disk
        ≡ stage_all world acp_id
            (suc n)
            (staged ++ staged_file world acp_id n file ∷ [])
            files
            (write_file (world.path_of n file) file.buffer disk)
  unfolding stage_all
  stage_all-can acp_id n staged file files disk can =
      rw (stage_upload-can acp_id n file disk can) refl

  pub stage_all-cannot :
      (acp_id : String) (n : ℕ) (staged : List AcpFile) (file : Upload) (files : List Upload)
      (disk : Disk)
      → world.writable (world.path_of n file) ≡ false
      → stage_all world acp_id n staged (file ∷ files) disk
        ≡ (remove_physical_files staged (remove_path (world.path_of n file) disk), err internal)
  unfolding stage_all
  stage_all-cannot acp_id n staged file files disk cannot =
      rw (stage_upload-cannot acp_id n file disk cannot) refl

  stage_all-IsRestored :
      (before : Disk)
      → ((n : ℕ) (file : Upload) → contains (world.path_of n file) (paths before) ≡ false)
      → (acp_id : String) (n : ℕ) (staged : List AcpFile) (files : List Upload) (disk : Disk)
      → remove_physical_files staged disk ≡ before
      → IsRestored before (stage_all world acp_id n staged files disk)
  unfolding stage_all
  stage_all-IsRestored before fresh acp_id n staged [] disk h = h
  stage_all-IsRestored before fresh acp_id n staged (file ∷ files) disk h =
      let path = world.path_of n file in
      let row = staged_file world acp_id n file in
      let untouched : remove_physical_files staged (remove_path path disk) ≡ before =
        rw (remove_physical_files-remove_path staged path disk, h)
          (remove_path_fresh path before (fresh n file)) in
      elim (Bool-cases (world.writable path)) [
        | inl can ↦ rw (stage_all-can acp_id n staged file files disk can) (
            stage_all-IsRestored before fresh acp_id (suc n) (staged ++ row ∷ []) files
              (write_file path file.buffer disk)
              (rw
                (
                  remove_physical_files-append staged row,
                  ← remove_physical_files-remove_path staged path
                      (write_file path file.buffer disk),
                  remove_path-write_file path file.buffer disk,
                )
                untouched))
        | inr cannot ↦ rw (stage_all-cannot acp_id n staged file files disk cannot) untouched
      ]

  module _ (is_uuid : String → Bool) (unzip : Text → Option (List Entry)) where
    -- Where an upload of several files is refused or fails, the rows and the disk are as before: what
    -- had been staged is gone again, provided that no new path was in use.
    pub upload_multiple-err :
        (acps : List String) (read : List AcpFile) (c : Commit) (request : UploadRequest)
        (s result : Store) (thrown : HttpError)
        → ((n : ℕ) (file : Upload) → contains (world.path_of n file) (paths s.disk) ≡ false)
        → upload_multiple world is_uuid unzip acps read c request s ≡ (result, err thrown)
        → (result.files ≡ s.files) × (result.disk ≡ s.disk)
    unfolding upload_multiple
    upload_multiple-err acps read c request s result thrown fresh e =
        by_accepted (accept world is_uuid unzip acps read request) e
      where
        by_settled :
            (strategy : UploadConflictStrategy) (files : List Upload) (staged : List AcpFile)
            (disk : Disk) (end : Result (List AcpFile))
            → remove_physical_files staged disk ≡ s.disk
            → settle staged (record s { disk = disk }) end ≡ (result, err thrown)
            → (result.files ≡ s.files) × (result.disk ≡ s.disk)
        by_settled strategy files staged disk (ok replaced) h e = absurd (ground arith)
        by_settled strategy files staged disk (err reason) h e = (
          sym (ap (λ (p : Store × Result (List AcpFile)). p.0.files) e),
          sym (ap (λ (p : Store × Result (List AcpFile)). p.0.disk) e) ∙ h,
        )

        by_staged :
            (strategy : UploadConflictStrategy) (files : List Upload)
            (staged : Disk × Result (List AcpFile))
            → IsRestored s.disk staged
            → after_staging world c strategy request.acp_id files s staged ≡ (result, err thrown)
            → (result.files ≡ s.files) × (result.disk ≡ s.disk)
        by_staged strategy files (disk, ok staged) h e =
            by_settled strategy files staged disk
              (commit world c strategy request.acp_id files s.files) h e
        by_staged strategy files (disk, err reason) h e = (
          sym (ap (λ (p : Store × Result (List AcpFile)). p.0.files) e),
          sym (ap (λ (p : Store × Result (List AcpFile)). p.0.disk) e) ∙ h,
        )

        by_accepted :
            (accepted : Result (UploadConflictStrategy × List Upload))
            → after_accepting world is_uuid unzip c request.acp_id s accepted ≡ (result, err thrown)
            → (result.files ≡ s.files) × (result.disk ≡ s.disk)
        by_accepted (err reason) e = (
          sym (ap (λ (p : Store × Result (List AcpFile)). p.0.files) e),
          sym (ap (λ (p : Store × Result (List AcpFile)). p.0.disk) e),
        )
        by_accepted (ok a) e =
            by_staged a.0 a.1 (stage_all world request.acp_id 0 [] a.1 s.disk)
              (stage_all-IsRestored s.disk fresh request.acp_id 0 [] a.1 s.disk refl) e
