-- ===== src/Daemon/Uploads.antt =====
-- File-drop uploads of crates/hitch-daemon/src/main.rs: `ActiveUpload`, `begin_upload` to
-- `cleanup_client_uploads`, and `cleanup_session_uploads`. The file system is a list of files, each
-- under the directory of a session; what the disk answers is an argument of the operation. An error
-- is its `ErrorCode`; its message is left out. The handlers but `begin_upload` hold the state lock
-- from their first read to their last write of the registry; `begin_upload` holds it twice, with its
-- work on the disk in between, and takes what the others do meanwhile as an argument.
pub mod Names
pub mod Transfer
use Prim.Native.String
use hitch.Prelude.{
  ℕ, zero, suc, ◌+◌, ◌/◌, ◌%◌, Bool, true, not, ◌&&◌, ◌||◌, Option, none, some, List, [], ◌∷◌, ◌++◌,
  Bytes, ltb, ◌==◌, if◌then◌else◌, Result, ok, err,
}
use hitch.Prelude.Text.{
  Text, codes, text_eq, is_empty, contains, is_whitespace, trim_start, trim_end,
}
use hitch.Prelude.Assoc.{Assoc, get, insert, remove, retain, contains_key}
use hitch.Core.Domain.{SessionId}
use hitch.Daemon.Session.{Sessions}

pub data ErrorCode : Type 0 where
  invalid_request unsupported_protocol not_found already_exists dirty_worktree live_sessions :
      ErrorCode
  git_failed pty_failed store_failed agent_hook_failed unauthorized unavailable internal : ErrorCode

-- `file` is whether the handle is still there.
pub record ActiveUpload : Type 0 where
  pub client_id : ℕ
  pub session_id : SessionId
  pub name : Text
  pub file : Bool

pub record File : Type 0 where
  pub dir : SessionId
  pub name : Text
  pub bytes : Bytes

pub record UploadState : Type 0 where
  pub sessions : Sessions
  pub uploads : Assoc ActiveUpload
  pub files : List File

unfoldable pub sanitize_upload_name : Text → Result ErrorCode Text
sanitize_upload_name name =
    let trimmed = trim_end is_whitespace (trim_start is_whitespace name) in
    if is_empty trimmed
      || text_eq trimmed (codes ".")
      || text_eq trimmed (codes "..")
      || contains b'/' trimmed
      || contains 0x5c trimmed
      || contains 0 trimmed
    then err invalid_request
    else ok trimmed

-- The decimal digits of `n`; `suc n` rounds are enough.
decimal : ℕ → ℕ → Text
decimal zero n = []
decimal (suc fuel) n =
    let front = decimal fuel (n / 10) in
    if ltb n 10 then (b'0' + n) ∷ [] else front ++ (b'0' + n % 10) ∷ []

-- `rfind('.')`: what stands before the last dot, and the rest from it on.
unfoldable pub rsplit_dot : Text → Option (Text × Text)
rsplit_dot [] = none
rsplit_dot (c ∷ cs) = elim (rsplit_dot cs) [
  | some (before, rest) ↦ some (c ∷ before, rest)
  | none ↦ if c == b'.' then some ([], c ∷ cs) else none
]

unfoldable pub suffix_name : Text → ℕ → Text
unfolding rsplit_dot decimal
suffix_name name n =
    let suffix = b'-' ∷ decimal (suc n) n in
    elim (rsplit_dot name) [
      | some (c ∷ before, extension) ↦ (c ∷ before) ++ (suffix ++ extension)
      | some ([], extension) ↦ name ++ suffix
      | none ↦ name ++ suffix
    ]

unfoldable pub is_at : SessionId → Text → File → Bool
is_at dir name f = f.dir == dir && text_eq f.name name

unfoldable pub find_file : SessionId → Text → List File → Option Bytes
find_file dir name [] = none
find_file dir name (f ∷ fs) = if is_at dir name f then some f.bytes else find_file dir name fs

-- The attempts from `attempt` on; `disk` is the names whose creation fails otherwise than because
-- the file exists.
unfoldable pub reserve_from :
    ℕ → ℕ → (Text → Bool) → SessionId → Text → List File → Result ErrorCode (List File × Text)
unfolding find_file suffix_name
reserve_from zero attempt disk dir name files = err internal
reserve_from (suc fuel) attempt disk dir name files =
    let candidate = if attempt == 0 then name else suffix_name name attempt in
    if disk candidate then err internal else elim (find_file dir candidate files) [
      | none ↦ ok (files ++ record { dir = dir; name = candidate; bytes = [] } ∷ [], candidate)
      | some bytes ↦ reserve_from fuel (suc attempt) disk dir name files
    ]

abbrev pub reserve_upload_path :
    (Text → Bool) → SessionId → Text → List File → Result ErrorCode (List File × Text)
reserve_upload_path disk dir name files = reserve_from 10000 0 disk dir name files

-- What the disk answers to `begin_upload`: `create_dir_all`, the attempts, and the second `open`.
pub record Disk : Type 0 where
  pub makes_dir : Bool
  pub fails_at : Text → Bool
  pub opens : Bool

-- Under the state lock, which is then released: whether the session is there.
abbrev check_session : SessionId → UploadState → Result ErrorCode Unit
check_session session_id st = if contains_key session_id st.sessions then ok tt else err not_found

-- With no lock: the directory, the reserved file, and its handle.
abbrev reserve_and_open : Disk → SessionId → Text → List File → List File × Result ErrorCode Text
reserve_and_open disk session_id sanitized before =
    if not disk.makes_dir
    then (before, err internal)
    else elim (reserve_upload_path disk.fails_at session_id sanitized before) [
      | err e ↦ (before, err e)
      | ok (files, final_name) ↦
          if not disk.opens then (files, err internal) else (files, ok final_name)
    ]

-- Under the state lock again.
abbrev register_upload : ℕ → SessionId → Text → ℕ → UploadState → UploadState
register_upload client session_id final_name upload_id st =
    let upload : ActiveUpload = record {
      client_id = client;
      session_id = session_id;
      name = final_name;
      file = true;
    } in
    record st { uploads = insert upload_id upload st.uploads }

-- What other handlers do to the state while `begin_upload` does not hold its lock: behind the check,
-- and behind the work on the disk.
pub record Meanwhile : Type 0 where
  pub checked : UploadState → UploadState
  pub reserved : UploadState → UploadState

unfoldable pub begin_upload :
    Meanwhile
    → Disk
    → ℕ
    → SessionId
    → Text
    → ℕ
    → UploadState
    → UploadState × Result ErrorCode (ℕ × Text)
begin_upload others disk client session_id file_name upload_id st =
    elim (sanitize_upload_name file_name) [
      | err e ↦ (st, err e)
      | ok sanitized ↦ elim (check_session session_id st) [
        | err e ↦ (st, err e)
        | ok _ ↦
            let now = others.checked st in
            let (files, result) = reserve_and_open disk session_id sanitized now.files in
            let after : UploadState = record now { files = files } in
            elim result [
              | err e ↦ (after, err e)
              | ok final_name ↦ (
                register_upload client session_id final_name upload_id (others.reserved after),
                ok (upload_id, final_name),
              )
            ]
      ]
    ]

-- An open handle appends to its file.
unfoldable pub append_file : SessionId → Text → Bytes → List File → List File
append_file dir name bytes [] = []
append_file dir name bytes (f ∷ fs) =
    let rest = append_file dir name bytes fs in
    if is_at dir name f then record f { bytes = f.bytes ++ bytes } ∷ fs else f ∷ rest

unfoldable pub remove_file : SessionId → Text → List File → List File
remove_file dir name [] = []
remove_file dir name (f ∷ fs) =
    let rest = remove_file dir name fs in if is_at dir name f then rest else f ∷ rest

unfoldable pub remove_dir_all : SessionId → List File → List File
remove_dir_all dir [] = []
remove_dir_all dir (f ∷ fs) =
    let rest = remove_dir_all dir fs in if f.dir == dir then rest else f ∷ rest

-- The upload, where this client may touch it.
unfoldable pub owned : ℕ → Option ActiveUpload → Result ErrorCode ActiveUpload
owned client none = err not_found
owned client (some u) = if u.client_id == client then ok u else err unauthorized

-- `written` is what of the chunk `write_all` wrote, where it failed.
unfoldable pub write_upload_chunk :
    Option Bytes → ℕ → ℕ → Bytes → UploadState → UploadState × Result ErrorCode Unit
unfolding append_file
write_upload_chunk written client upload_id bytes st =
    elim (owned client (get upload_id st.uploads)) [
      | err e ↦ (st, err e)
      | ok u ↦
          let put : Bytes → UploadState =
            λ b. record st { files = append_file u.session_id u.name b st.files } in
          if not u.file
          then (st, err internal)
          else elim written [ none ↦ (put bytes, ok tt) | some part ↦ (put part, err internal) ]
    ]

-- `synced` is whether `sync_all` succeeded. The result is the file's directory and name.
unfoldable pub finish_upload :
    Bool → ℕ → ℕ → UploadState → UploadState × Result ErrorCode (SessionId × Text)
finish_upload synced client upload_id st = elim (owned client (get upload_id st.uploads)) [
  | err e ↦ (st, err e)
  | ok u ↦ (
    record st { uploads = remove upload_id st.uploads },
    if u.file && not synced then err internal else ok (u.session_id, u.name),
  )
]

unfoldable pub abort_upload : ℕ → ℕ → UploadState → UploadState × Result ErrorCode Unit
unfolding remove_file
abort_upload client upload_id st = elim (get upload_id st.uploads) [
  | none ↦ (st, ok tt)
  | some u ↦
      if u.client_id == client
      then (
        record st {
          uploads = remove upload_id st.uploads;
          files = remove_file u.session_id u.name st.files;
        },
        ok tt,
      )
      else (st, err unauthorized)
]

-- The paths of the client's uploads, each removed.
unfoldable remove_client_files : ℕ → Assoc ActiveUpload → List File → List File
unfolding remove_file
remove_client_files client [] files = files
remove_client_files client ((id, u) ∷ uploads) files =
    remove_client_files client uploads
      (if u.client_id == client then remove_file u.session_id u.name files else files)

unfoldable pub cleanup_client_uploads : ℕ → UploadState → UploadState
unfolding remove_client_files
cleanup_client_uploads client st = record st {
  uploads = retain (λ u. not (u.client_id == client)) st.uploads;
  files = remove_client_files client st.uploads st.files;
}

unfoldable pub cleanup_session_uploads : SessionId → UploadState → UploadState
unfolding remove_dir_all
cleanup_session_uploads session_id st = record st {
  uploads = retain (λ u. not (u.session_id == session_id)) st.uploads;
  files = remove_dir_all session_id st.files;
}
