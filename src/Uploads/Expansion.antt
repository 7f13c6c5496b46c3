-- ===== src/Uploads/Expansion.antt =====
-- `ArchiveExpansionService` of backend/src/files/archive-expansion.service.ts: the files of an
-- uploaded ZIP archive in place of the archive.
use content_pool_next.Base.{
  ℕ, ◌==◌, number_eq, String, Bool, true, false, not, ◌&&◌, ◌||◌, Option, none, some, List, [], ◌∷◌,
  ◌++◌, map, any, contains, is_empty, length, same, if◌then◌else◌,
}
use content_pool_next.Base.Text.{Text, text_eq, trim}
use content_pool_next.Base.Units.{units}
use content_pool_next.Base.Http.{Result, ok, err, bad_request, ◌>>=◌, ◌>>◌, throw_if}
use content_pool_next.Uploads.{Upload}

-- An entry of an archive; `content` is what `archive.file(name)` reads.
pub record Entry : Type 0 where
  pub name : Text
  pub dir : Bool
  pub content : Option Text

-- `text.startsWith(start)`
abbrev pub starts_with : Text → Text → Bool
starts_with text [] = true
starts_with [] (c ∷ start) = false
starts_with (d ∷ text) (c ∷ start) = d == c && starts_with text start

-- `text.endsWith(end)`
abbrev pub ends_with : Text → Text → Bool
ends_with [] end = is_empty end
ends_with (d ∷ text) end = same (d ∷ text) end || ends_with text end

-- `text.split(unit)[0]`
abbrev pub before_unit : ℕ → Text → Text
before_unit unit [] = []
before_unit unit (c ∷ text) = let rest = before_unit unit text in if c == unit then [] else c ∷ rest

-- `text.replace(/\\/g, "/")`
abbrev pub slashed : Text → Text
slashed = map (λ c. if c == 92 then 47 else c)

-- a path without the slashes at its end
abbrev pub without_slashes : Text → Text
without_slashes [] = []
without_slashes (c ∷ path) =
    let rest = without_slashes path in if c == 47 && is_empty rest then [] else c ∷ rest

-- what stands behind the last unit of this kind; everything where there is none
abbrev pub behind_last : ℕ → Text → Text
behind_last unit [] = []
behind_last unit (c ∷ text) =
    let rest = behind_last unit text in
    if contains unit text then rest else if c == unit then text else c ∷ text

-- `path.posix.basename(path)`
unfoldable pub basename : Text → Text
basename path = behind_last 47 (without_slashes path)

-- `path.extname(name).slice(1)`: what follows the last dot, but for one that begins the name
unfoldable pub extension : Text → Text
unfolding basename
extension path = extension_of (basename path)
  where
    extension_of : Text → Text
    extension_of [] = []
    extension_of (c ∷ name) =
        if contains 46 name && not (same (c ∷ name) (46 ∷ 46 ∷ [])) then behind_last 46 name else []

module _ (lower : Text → Text) where
  unfoldable pub is_zip_upload : Upload → Bool
  unfolding units trim
  is_zip_upload file =
      ends_with (lower (trim file.original_name)) (units ".zip")
      || contains (lower (trim (before_unit 59 file.mime_type)))
          (units "application/zip" ∷ units "application/x-zip-compressed" ∷ [])

  unfoldable pub infer_mime_type_from_file_name : Text → Text
  unfolding units extension
  infer_mime_type_from_file_name name =
      let ext = lower (extension name) in
      let is : List String → Bool = λ texts. any (λ t. same ext (units t)) texts in
      if is ("xml" ∷ [])
      then units "application/xml"
      else if is ("json" ∷ "voud" ∷ "vomd" ∷ "vocs" ∷ [])
      then units "application/json"
      else if is ("html" ∷ "htm" ∷ [])
      then units "text/html"
      else if is ("csv" ∷ [])
      then units "text/csv"
      else if is ("tsv" ∷ [])
      then units "text/tab-separated-values"
      else if is ("txt" ∷ "md" ∷ "log" ∷ "yml" ∷ "yaml" ∷ "ini" ∷ "properties" ∷ [])
      then units "text/plain"
      else if is ("pdf" ∷ [])
      then units "application/pdf"
      else if is ("png" ∷ [])
      then units "image/png"
      else if is ("jpg" ∷ "jpeg" ∷ [])
      then units "image/jpeg"
      else if is ("gif" ∷ [])
      then units "image/gif"
      else if is ("webp" ∷ [])
      then units "image/webp"
      else if is ("svg" ∷ "svgz" ∷ [])
      then units "image/svg+xml"
      else if is ("bmp" ∷ [])
      then units "image/bmp"
      else if is ("mp3" ∷ [])
      then units "audio/mpeg"
      else if is ("wav" ∷ [])
      then units "audio/wav"
      else if is ("ogg" ∷ [])
      then units "audio/ogg"
      else if is ("m4a" ∷ [])
      then units "audio/mp4"
      else if is ("aac" ∷ [])
      then units "audio/aac"
      else if is ("mp4" ∷ [])
      then units "video/mp4"
      else if is ("webm" ∷ [])
      then units "video/webm"
      else if is ("mov" ∷ [])
      then units "video/quicktime"
      else if is ("m4v" ∷ [])
      then units "video/x-m4v"
      else if is ("ogv" ∷ [])
      then units "video/ogg"
      else units "application/octet-stream"

  unfoldable pub get_archive_entry_file_name : Text → Text
  unfolding trim basename
  get_archive_entry_file_name name = trim (basename (trim (slashed name)))

  unfoldable pub should_skip_archive_entry : Text → Text → Bool
  unfolding trim units
  should_skip_archive_entry name extracted =
      let path = trim (slashed name) in
      is_empty path || starts_with path (units "__MACOSX/") || same extracted (units ".DS_Store")

  -- the upload that an entry becomes; none for an entry that is left out
  unfoldable pub extract_entry : Upload → Entry → Option Upload
  unfolding get_archive_entry_file_name should_skip_archive_entry infer_mime_type_from_file_name
  extract_entry zip entry =
      let name = get_archive_entry_file_name entry.name in
      if entry.dir || is_empty name || should_skip_archive_entry entry.name name
      then none
      else elim entry.content [
        | none ↦ none
        | some content ↦ some (record {
          original_name = name;
          mime_type = infer_mime_type_from_file_name name;
          size = length content;
          buffer = content;
        })
      ]

  unfoldable pub extract_entries : Upload → List Entry → List Upload
  unfolding extract_entry
  extract_entries zip [] = []
  extract_entries zip (entry ∷ entries) =
      let rest = extract_entries zip entries in
      elim (extract_entry zip entry) [ none ↦ rest | some file ↦ file ∷ rest ]

  -- `unzip` is the ZIP reader; none where it throws.
  module _ (unzip : Text → Option (List Entry)) where
    unfoldable pub extract_zip_entries : Upload → Result (List Upload)
    unfolding extract_entries
    extract_zip_entries zip = elim (unzip zip.buffer) [
      | none ↦ err bad_request
      | some entries ↦ ok (extract_entries zip entries)
    ]

    unfoldable pub expand_file : Upload → Result (List Upload)
    unfolding trim is_zip_upload extract_zip_entries
    expand_file file =
        throw_if (is_empty (trim file.original_name)) bad_request
        >> (if not (is_zip_upload file)
            then ok (file ∷ [])
            else extract_zip_entries file
              >>= (λ extracted. throw_if (is_empty extracted) bad_request >> ok extracted))

    unfoldable pub expand : List Upload → Result (List Upload)
    unfolding expand_file
    expand [] = ok []
    expand (file ∷ files) = do front ← expand_file file; back ← expand files; ok (front ++ back)
