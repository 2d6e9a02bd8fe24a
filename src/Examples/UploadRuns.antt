-- ===== src/Examples/UploadRuns.antt =====
-- Runs of the uploads of crates/hitch-daemon/src/main.rs.
use hitch.Prelude.{◌≡◌, refl, ◌∙◌, true, false, none, some, List, [], ◌∷◌, ◌++◌, arith, ok}
use hitch.Prelude.Text.{
  Text, codes, text_eq, is_empty, contains, is_whitespace, trim_start, trim_end,
}
use hitch.Prelude.Assoc.{get, retain}
use hitch.Examples.AgentRuns.{one, fresh}
use hitch.Daemon.Uploads.{
  File, UploadState, Disk, Meanwhile, cleanup_session_uploads, remove_dir_all, begin_upload,
  finish_upload, sanitize_upload_name, reserve_from, find_file, suffix_name, is_at,
}
use hitch.Daemon.Uploads.Names.{resolved, trimmed, sanitize_upload_name-resolved}
use hitch.Daemon.Uploads.Transfer.{
  Leaves, find_file-remove_dir_all, write_chunks, concat, finish_upload-begin_upload,
}

abbrev disk : Disk
disk = record { makes_dir = true; fails_at = λ _. false; opens = true }

abbrev dropped : Text
dropped = codes "a.t"

abbrev suffixed : Text
suffixed = codes "a-1.t"

-- `a.t` is there already.
abbrev existing : List File
existing = record { dir = 7; name = dropped; bytes = 1 ∷ [] } ∷ []

abbrev start : UploadState
start = record { sessions = one fresh; uploads = []; files = existing }

abbrev after : List File
after = existing ++ record { dir = 7; name = suffixed; bytes = [] } ∷ []

accepted : sanitize_upload_name (codes " a.t") ≡ ok dropped
unfolding sanitize_upload_name trim_start trim_end is_whitespace is_empty text_eq contains
accepted = refl

sanitize_upload_name-resolved_example :
    (dropped ≡ trimmed (codes " a.t"))
    × (contains 0 dropped ≡ false)
    × ((dir : Text) → resolved (dir ++ b'/' ∷ dropped) ≡ resolved dir ++ dropped ∷ [])
sanitize_upload_name-resolved_example =
    sanitize_upload_name-resolved (codes " a.t") dropped accepted

-- Session 8 is closed while an upload to session 7 begins.
abbrev meanwhile : Meanwhile
meanwhile = record { checked = cleanup_session_uploads 8; reserved = cleanup_session_uploads 8 }

leaves : Leaves 7 suffixed meanwhile.reserved
unfolding cleanup_session_uploads
leaves st there = find_file-remove_dir_all 7 8 suffixed st.files (omega arith) ∙ there

begun : (begin_upload meanwhile disk 4 7 (codes " a.t") 9 start).1 ≡ ok (9, suffixed)
unfolding begin_upload get sanitize_upload_name trim_start trim_end is_whitespace is_empty text_eq
    contains reserve_from find_file is_at suffix_name cleanup_session_uploads remove_dir_all retain
begun = refl

finish_upload-begin_upload_example :
    let sent =
      write_chunks 4 9
        ((1 ∷ []) ∷ (2 ∷ []) ∷ [])
        (begin_upload meanwhile disk 4 7 (codes " a.t") 9 start).0 in
    let (done, result) = finish_upload true 4 9 sent in
    (result ≡ ok (7, suffixed))
    × (find_file 7 suffixed done.files ≡ some (concat ((1 ∷ []) ∷ (2 ∷ []) ∷ [])))
    × (get 9 done.uploads ≡ none)
finish_upload-begin_upload_example =
    finish_upload-begin_upload meanwhile disk 4 9 7 (codes " a.t") suffixed
      ((1 ∷ []) ∷ (2 ∷ []) ∷ []) start leaves begun

abbrev closed_behind : Meanwhile
closed_behind = record { checked = λ st. st; reserved = cleanup_session_uploads 7 }

-- The session is closed behind the reservation: the upload is accepted, and its file is gone.
file_gone :
    ((begin_upload closed_behind disk 4 7 (codes " a.t") 9 start).1 ≡ ok (9, suffixed))
    × (find_file 7 suffixed (begin_upload closed_behind disk 4 7 (codes " a.t") 9 start).0.files
        ≡ none)
unfolding begin_upload get sanitize_upload_name trim_start trim_end is_whitespace is_empty text_eq
    contains reserve_from find_file is_at suffix_name cleanup_session_uploads remove_dir_all retain
file_gone = (refl, refl)
