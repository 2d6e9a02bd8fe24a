-- ===== src/Daemon/Uploads/Transfer.antt =====
-- A whole upload.
use hitch.Prelude.{
  ℕ, ◌≡◌, refl, sym, ap, ◌≢◌, inl, inr, true, false, none, some, List, [], ◌∷◌, ◌++◌, append-nil,
  append_assoc, arith, Bytes, ◌==◌, Bool-cases, some-injective, ok-ne-err, ok-injective,
  Result-cases, ok,
}
use hitch.Prelude.Text.{Text, text_eq_iff}
use hitch.Prelude.Assoc.{get, contains_key, get-insert, get-remove}
use hitch.Core.Domain.{SessionId}
use hitch.Daemon.Uploads.{
  ActiveUpload, File, UploadState, Disk, Meanwhile, find_file, is_at, append_file, reserve_from,
  begin_upload, write_upload_chunk, finish_upload, remove_dir_all, sanitize_upload_name, owned,
}
use hitch.Daemon.Uploads.Names.{reserve_from-Reserved}

-- The chunks of one upload, written one after the other, each whole.
abbrev pub write_chunks : ℕ → ℕ → List Bytes → UploadState → UploadState
write_chunks client id [] st = st
write_chunks client id (b ∷ bs) st =
    write_chunks client id bs (write_upload_chunk none client id b st).0

abbrev pub concat : List Bytes → Bytes
concat [] = []
concat (b ∷ bs) = b ++ concat bs

is_at_self :
    (dir : SessionId) (name : Text) (bytes : Bytes)
    → is_at dir name (record { dir = dir; name = name; bytes = bytes }) ≡ true
unfolding is_at
is_at_self dir name bytes = ground (arith, (text_eq_iff name name).1 refl)

find_file-append_file :
    (dir : SessionId) (name : Text) (more old : Bytes) (files : List File)
    → find_file dir name files ≡ some old
    → find_file dir name (append_file dir name more files) ≡ some (old ++ more)
unfolding find_file append_file is_at
find_file-append_file dir name more old [] h = cc
find_file-append_file dir name more old (f ∷ fs) h = elim (Bool-cases (is_at dir name f)) [
  | inl here ↦ rw (here, here) (ap (λ b. some (b ++ more)) (some-injective (rw here at h)))
  | inr later ↦ rw (later, later) (find_file-append_file dir name more old fs (rw later at h))
]

pub find_file-created :
    (dir : SessionId) (name : Text) (files : List File)
    → find_file dir name files ≡ none
    → find_file dir name (files ++ record { dir = dir; name = name; bytes = [] } ∷ []) ≡ some []
unfolding find_file
find_file-created dir name [] h = rw (is_at_self dir name []) refl
find_file-created dir name (f ∷ fs) h = elim (Bool-cases (is_at dir name f)) [
  | inl here ↦ cc (rw here at h)
  | inr later ↦ rw later (find_file-created dir name fs (rw later at h))
]

-- Closing another session leaves the files of this one.
pub find_file-remove_dir_all :
    (dir other : SessionId) (name : Text) (files : List File)
    → dir ≢ other
    → find_file dir name (remove_dir_all other files) ≡ find_file dir name files
unfolding find_file remove_dir_all is_at
find_file-remove_dir_all dir other name [] apart = refl
find_file-remove_dir_all dir other name (f ∷ fs) apart =
    let rest = find_file-remove_dir_all dir other name fs apart in
    elim (Bool-cases (f.dir == other)) [
      | inl gone ↦
          let elsewhere : (f.dir == dir) ≡ false = ground (arith, gone, apart) in
          rw (gone, elsewhere) rest
      | inr kept ↦ elim (Bool-cases (is_at dir name f)) [
        | inl here ↦ rw (kept, here) refl
        | inr later ↦ rw (kept, later) rest
      ]
    ]

-- The upload is in the registry, open, and its file has these bytes.
pub record IsUploading (client id : ℕ) (u : ActiveUpload) (bytes : Bytes) (st : UploadState)
    : Type 0 where
  pub registered : get id st.uploads ≡ some u
  pub mine : u.client_id ≡ client
  pub is_open : u.file ≡ true
  pub written : find_file u.session_id u.name st.files ≡ some bytes

owned_mine :
    (client id : ℕ) (u : ActiveUpload) (st : UploadState)
    → get id st.uploads ≡ some u
    → u.client_id ≡ client
    → owned client (get id st.uploads) ≡ ok u
unfolding owned
owned_mine client id u st found mine =
    let same : (u.client_id == client) ≡ true = ground (arith, mine) in rw (found, same) refl

write_upload_chunk_mine :
    (client id : ℕ) (u : ActiveUpload) (more : Bytes) (st : UploadState)
    → owned client (get id st.uploads) ≡ ok u
    → u.file ≡ true
    → write_upload_chunk none client id more st
      ≡ (record st { files = append_file u.session_id u.name more st.files }, ok tt)
unfolding write_upload_chunk
write_upload_chunk_mine client id u more st mine live = simp (write_upload_chunk, mine, live)

write_upload_chunk-IsUploading :
    (client id : ℕ) (u : ActiveUpload) (old more : Bytes) (st : UploadState)
    → IsUploading client id u old st
    → IsUploading client id u (old ++ more) (write_upload_chunk none client id more st).0
write_upload_chunk-IsUploading client id u old more st r =
    rw
      (write_upload_chunk_mine client id u more st (owned_mine client id u st r.registered r.mine)
        r.is_open)
      (record {
        registered = r.registered;
        mine = r.mine;
        is_open = r.is_open;
        written = find_file-append_file u.session_id u.name more old st.files r.written;
      })

write_chunks-IsUploading :
    (client id : ℕ) (u : ActiveUpload) (old : Bytes) (chunks : List Bytes) (st : UploadState)
    → IsUploading client id u old st
    → IsUploading client id u (old ++ concat chunks) (write_chunks client id chunks st)
write_chunks-IsUploading client id u old [] st r = rw (append-nil) r
write_chunks-IsUploading client id u old (b ∷ bs) st r = rw (← append_assoc old b (concat bs)) (
    write_chunks-IsUploading client id u (old ++ b) bs (write_upload_chunk none client id b st).0
      (write_upload_chunk-IsUploading client id u old b st r))

-- The new file, still empty, is there behind what the other handlers do.
abbrev pub Leaves : SessionId → Text → (UploadState → UploadState) → Type 0
Leaves session name f =
    (st : UploadState)
    → find_file session name st.files ≡ some []
    → find_file session name (f st).files ≡ some []

begin_upload-IsUploading :
    (others : Meanwhile) (disk : Disk) (client id : ℕ) (session : SessionId) (name final : Text)
    (st : UploadState)
    → Leaves session final others.reserved
    → (begin_upload others disk client session name id st).1 ≡ ok (id, final)
    → IsUploading client id
        (record { client_id = client; session_id = session; name = final; file = true })
        []
        (begin_upload others disk client session name id st).0
unfolding begin_upload
begin_upload-IsUploading others disk client id session name final st leaves h =
    elim (Result-cases (sanitize_upload_name name)) [
      | inr (e, bad) ↦ absurd (ok-ne-err (sym (rw (begin_upload, bad) at h)))
      | inl (sanitized, good) ↦ elim (Bool-cases (contains_key session st.sessions)) [
        | inr gone ↦ absurd (ok-ne-err (sym (rw (begin_upload, good, gone) at h)))
        | inl there ↦ elim (Bool-cases disk.makes_dir) [
          | inr full ↦ absurd (ok-ne-err (sym (rw (begin_upload, good, there, full) at h)))
          | inl made ↦
              elim (Result-cases
                (reserve_from 10000 0 disk.fails_at session sanitized (others.checked st).files)) [
                  | inr (e, failed) ↦
                      absurd (ok-ne-err (sym (rw (begin_upload, good, there, made, failed) at h)))
                  | inl ((files, chosen), reserved) ↦ elim (Bool-cases disk.opens) [
                    | inr shut ↦ absurd (
                        ok-ne-err (sym (rw (begin_upload, good, there, made, reserved, shut) at h)))
                    | inl opened ↦
                        let same =
                          ap (λ p. p.1)
                            (ok-injective
                              (rw (begin_upload, good, there, made, reserved, opened) at h)) in
                        let r =
                          reserve_from-Reserved 10000 0 disk.fails_at session sanitized
                            (others.checked st).files files chosen reserved in
                        let kept : Leaves session chosen others.reserved = rw same leaves in
                        rw (begin_upload, good, there, made, reserved, opened, ← same)
                          (record {
                            registered = ground (
                              arith,
                              get-insert id id
                                  (record {
                                    client_id = client;
                                    session_id = session;
                                    name = chosen;
                                    file = true;
                                  })
                                  (others.reserved
                                    (record (others.checked st) { files = files })).uploads,
                            );
                            mine = refl;
                            is_open = refl;
                            written =
                                rw (made, reserved, opened)
                                  (kept (record (others.checked st) { files = files })
                                    (rw r.created (
                                      find_file-created session chosen (others.checked st).files
                                        r.free)));
                          })
                  ]
                ]
        ]
      ]
    ]

-- Whatever other handlers do while `begin_upload` does not hold the state lock, as long as they leave
-- the new file as it is: an upload that `begin_upload` accepts, whose chunks one client then sends and
-- `write_upload_chunk` writes whole, and that `finish_upload` syncs: the file has exactly the chunks' bytes in order, the
-- result is its path, and the upload has left the registry.
pub finish_upload-begin_upload :
    (others : Meanwhile) (disk : Disk) (client id : ℕ) (session : SessionId) (name final : Text)
    (chunks : List Bytes) (st : UploadState)
    → Leaves session final others.reserved
    → (begin_upload others disk client session name id st).1 ≡ ok (id, final)
    → let sent =
        write_chunks client id chunks (begin_upload others disk client session name id st).0 in
      let (after, result) = finish_upload true client id sent in
      (result ≡ ok (session, final))
      × (find_file session final after.files ≡ some (concat chunks))
      × (get id after.uploads ≡ none)
unfolding finish_upload
finish_upload-begin_upload others disk client id session name final chunks st leaves h =
    let u : ActiveUpload = record {
      client_id = client;
      session_id = session;
      name = final;
      file = true;
    } in
    let begun = begin_upload-IsUploading others disk client id session name final st leaves h in
    let sent =
      write_chunks client id chunks (begin_upload others disk client session name id st).0 in
    let r =
      write_chunks-IsUploading client id u [] chunks
        (begin_upload others disk client session name id st).0 begun in
    rw (finish_upload, owned_mine client id u sent r.registered refl)
      (refl, r.written, ground (arith, get-remove id id sent.uploads))
