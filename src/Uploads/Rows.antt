-- ===== src/Uploads/Rows.antt =====
-- The rows of staged uploads, and the rows of an ACP once they are saved.
use content_pool_next.Base.{
  ℕ, suc, String, string_eq, false, not, List, [], ◌∷◌, ◌++◌, contains, is_empty, same, same_refl,
  All, IsDistinct, append-IsDistinct, none_shared, filter_comm, filter-append,
  map-filter-IsDistinct, ◌≡◌, refl, sym, ap, ◌∙◌, arith, Bool-cases, inl, inr,
}
use mathlib.Core.List.{append-nil, append_assoc, map-append}
use content_pool_next.Base.Text.{text_eq}
use content_pool_next.Base.Http.{Result, ok, err, internal, ok_injective}
use content_pool_next.Uploads.{
  World, Upload, AcpFile, Disk, Commit, UploadConflictStrategy, normalize_file_name, staged_file,
  stage_all, files_of, without, commit, write_file,
}
use content_pool_next.Uploads.Rollback.{stage_all-can, stage_all-cannot}
use content_pool_next.Uploads.Names.{upload_keys, keeps_both}
use content_pool_next.Uploads.Replacing.{ids, file_keys, commit-IsFree}

module _ (world : World) where
  -- the rows of the uploads, from the `n`th on
  abbrev pub rows_from : String → ℕ → List Upload → List AcpFile
  rows_from acp_id n [] = []
  rows_from acp_id n (file ∷ files) =
      staged_file world acp_id n file ∷ rows_from acp_id (suc n) files

  pub stage_all-rows :
      (acp_id : String) (n : ℕ) (staged : List AcpFile) (files : List Upload) (disk after : Disk)
      (rows : List AcpFile)
      → stage_all world acp_id n staged files disk ≡ (after, ok rows)
      → rows ≡ staged ++ rows_from acp_id n files
  unfolding stage_all
  stage_all-rows acp_id n staged [] disk after rows e =
      sym (ok_injective (ap (λ (p : Disk × Result (List AcpFile)). p.1) e))
      ∙ sym (append-nil staged)
  stage_all-rows acp_id n staged (file ∷ files) disk after rows e =
      elim (Bool-cases (world.writable (world.path_of n file))) [
        | inl can ↦
            stage_all-rows acp_id (suc n) (staged ++ staged_file world acp_id n file ∷ []) files
              (write_file (world.path_of n file) file.buffer disk) after rows
              (sym (stage_all-can world acp_id n staged file files disk can) ∙ e)
            ∙ append_assoc staged (staged_file world acp_id n file ∷ [])
                (rows_from acp_id (suc n) files)
        | inr cannot ↦
            let refused : err internal ≡ ok rows =
              ap (λ (p : Disk × Result (List AcpFile)). p.1)
                (sym (stage_all-cannot world acp_id n staged file files disk cannot) ∙ e) in
            absurd (ground arith)
      ]

  file_keys-rows_from :
      (acp_id : String) (n : ℕ) (files : List Upload)
      → file_keys world (rows_from acp_id n files) ≡ upload_keys world files
  file_keys-rows_from acp_id n [] = refl
  file_keys-rows_from acp_id n (file ∷ files) = rw (file_keys-rows_from acp_id (suc n) files)

  files_of-rows_from :
      (acp_id : String) (n : ℕ) (files : List Upload)
      → files_of acp_id (rows_from acp_id n files) ≡ rows_from acp_id n files
  files_of-rows_from acp_id n [] = refl
  files_of-rows_from acp_id n (file ∷ files) =
      rw (same_refl acp_id, files_of-rows_from acp_id (suc n) files)

  without-rows_from :
      (acp_id : String) (removed : List AcpFile) (n : ℕ) (files : List Upload)
      → ((m : ℕ) → contains (world.new_id m) (ids removed) ≡ false)
      → without removed (rows_from acp_id n files) ≡ rows_from acp_id n files
  without-rows_from acp_id removed n [] new = refl
  without-rows_from acp_id removed n (file ∷ files) new =
      rw (new n, without-rows_from acp_id removed (suc n) files new)

  -- the files of the ACP once uploads have been added and others removed
  pub files_of-replaced :
      (acp_id : String) (removed stored : List AcpFile) (files : List Upload)
      → ((m : ℕ) → contains (world.new_id m) (ids removed) ≡ false)
      → files_of acp_id (without removed (stored ++ rows_from acp_id 0 files))
        ≡ without removed (files_of acp_id stored) ++ rows_from acp_id 0 files
  files_of-replaced acp_id removed stored files new =
      rw
        (
          filter-append (λ f. not (contains f.id (ids removed))) stored,
          without-rows_from acp_id removed 0 files new,
          filter-append (λ f. same f.acp_id acp_id) (without removed stored),
          files_of-rows_from acp_id 0 files,
          filter_comm (λ f. same f.acp_id acp_id) (λ f. not (contains f.id (ids removed))) stored,
        )
        refl

  pub replaced-IsDistinct :
      (acp_id : String) (c : Commit) (strategy : UploadConflictStrategy) (files : List Upload)
      (stored replaced : List AcpFile)
      → keeps_both strategy ≡ false
      → commit world c strategy acp_id files stored ≡ ok replaced
      → IsDistinct (file_keys world (files_of acp_id stored))
      → IsDistinct (upload_keys world files)
      → All (λ key. is_empty key ≡ false) (upload_keys world files)
      → IsDistinct
          (file_keys world (without replaced (files_of acp_id stored) ++ rows_from acp_id 0 files))
  replaced-IsDistinct acp_id c strategy files stored replaced k e before distinct given =
      let kept = without replaced (files_of acp_id stored) in
      rw (map-append, file_keys-rows_from acp_id 0 files)
        (append-IsDistinct (file_keys world kept) (upload_keys world files)
          (map-filter-IsDistinct (λ f. normalize_file_name world f.original_name) _
            (files_of acp_id stored) before)
          distinct
          (none_shared (file_keys world kept) (upload_keys world files)
            (commit-IsFree world files acp_id given c strategy stored replaced k e)))
