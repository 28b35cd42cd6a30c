-- ===== src/FileServer/Files/Transfers.antt =====
-- What writing, uploading and downloading do to the files of the server.
use system_programming_cse.Common.{
  ℕ, zero, suc, ◌+◌, ◌≤◌, ◌≡◌, refl, ap, true, false, Bool-cases, Option-cases, inl, inr, Option,
  none, some, [], ◌∷◌, ◌++◌, if◌then◌else◌, ◌==◌, ◌&&◌, arith, Text, length, take, take_all, codes,
  text_eq, text_eq-eq, ==_refl,
}
use system_programming_cse.Common.Strings.{ℤ, pos}
use system_programming_cse.FileServer.Files.{
  Files, Calls, generous, find, store, content_of, written, transfer, is_behind_first,
  write_to_file, upload_file, download_file,
}
use system_programming_cse.FileServer.Files.Store.{find-store}

-- Storing what a file holds already changes nothing.
store_same :
    (name other s : Text) (fs : Files)
    → find name fs ≡ some s
    → find other (store name s fs) ≡ find other fs
store_same name other s fs h = elim (Bool-cases (text_eq name other)) [
  | inl e ↦
      let eq = text_eq-eq name other e in
      ground (arith, h, e, find-store name other s fs, ap (λ n. find n fs) eq)
  | inr e ↦ ground (arith, e, find-store name other s fs)
]

content_same :
    (name other : Text) (fs : Files)
    → content_of other (store name (content_of name fs) fs) ≡ content_of other fs
content_same name other fs = elim (Bool-cases (text_eq name other)) [
  | inl e ↦
      let eq = text_eq-eq name other e in
      rw (find-store name other (content_of name fs) fs, e, content_of)
        (ap (λ n. content_of n fs) eq)
  | inr e ↦ rw (find-store name other (content_of name fs) fs, e, content_of) refl
]

take_same : (n : ℕ) (s : Text) → (length (take n s) == length s) ≡ true → take n s ≡ s
take_same zero [] h = refl
take_same zero (x ∷ s) h = ground arith
take_same (suc n) [] h = refl
take_same (suc n) (x ∷ s) h = ground (arith, take_same n s)

-- A write that reports the whole length has written all.
written_all : (c : Calls) (s : Text) → (length (written c s) == length s) ≡ true → written c s ≡ s
unfolding written
written_all c s h = elim (Option-cases c.write_limit) [
  | inl e ↦ ground (arith, e)
  | inr (n, e) ↦ ground (arith, e, take_same n s)
]

-- What was stored under a new name leaves the files that were there.
store_keeps :
    (name other content s : Text) (fs : Files)
    → find name fs ≡ none
    → find other fs ≡ some s
    → find other (store name content fs) ≡ some s
store_keeps name other content s fs fresh h = elim (Bool-cases (text_eq name other)) [
  | inl e ↦ let eq = text_eq-eq name other e in ground (arith, h, fresh, ap (λ n. find n fs) eq)
  | inr e ↦ ground (arith, e, find-store name other content fs)
]

-- Where the file can be opened and written, a line below 2 or no line appends the content and a line
-- break to the file, which is created if it does not exist, and changes no other file.
pub write_to_file_appends :
    (c : Calls) (fs : Files) (filename content other : Text) (line : ℤ)
    → c.writable ≡ true
    → c.write_limit ≡ none
    → is_behind_first line ≡ false
    → ((write_to_file c fs filename line content).0 ≡ true)
      × (find other (write_to_file c fs filename line content).1 ≡ (
          if text_eq filename other
          then some (content_of filename fs ++ (content ++ codes "\n"))
          else find other fs))
unfolding write_to_file written
write_to_file_appends c fs filename content other line writable unlimited first =
    rw (writable, unlimited, first, write_to_file)
      (refl, find-store filename other (content_of filename fs ++ (content ++ codes "\n")) fs)

-- Whatever the system grants, a line from 2 on is refused and no file's content changes.
pub write_to_file_refuses :
    (c : Calls) (fs : Files) (filename content other : Text) (n : ℕ)
    → ((write_to_file c fs filename (pos (2 + n)) content).0 ≡ false)
      × (content_of other (write_to_file c fs filename (pos (2 + n)) content).1
          ≡ content_of other fs)
unfolding write_to_file is_behind_first
write_to_file_refuses c fs filename content other n = elim (Bool-cases c.writable) [
  | inl e ↦ let same = content_same filename other fs in ground (arith, e, same)
  | inr e ↦ ground (arith, e)
]

-- Whatever the system grants and however the upload ends, a file that the server had keeps its content.
pub upload_file_keeps :
    (c : Calls) (client : Text → Option Text) (fs : Files) (filename dir other s : Text)
    → find other fs ≡ some s
    → find other (upload_file c client fs filename dir).1 ≡ some s
unfolding upload_file transfer
upload_file_keeps c client fs filename dir other s h =
    let name = take 255 filename in
    elim (Option-cases (find name fs)) [
      | inl fresh ↦ elim (Option-cases (client (take 255 (dir ++ b'/' ∷ filename)))) [
        | inl gone ↦ ground (arith, fresh, gone, h)
        | inr (t, here) ↦
            let kept = store_keeps name other (written c t) s fs fresh h in
            ground (arith, fresh, here, h, kept)
      ]
      | inr (t, old) ↦ ground (arith, old, h)
    ]

-- Where the system grants everything, a client's file that the server does not have is stored with the
-- content that it has at the client, and no other file changes.
pub upload_file_stores :
    (client : Text → Option Text) (fs : Files) (filename dir other s : Text)
    → find (take 255 filename) fs ≡ none
    → client (take 255 (dir ++ b'/' ∷ filename)) ≡ some s
    → ((upload_file generous client fs filename dir).0 ≡ true)
      × (find other (upload_file generous client fs filename dir).1
          ≡ (if text_eq (take 255 filename) other then some s else find other fs))
unfolding upload_file transfer written
upload_file_stores client fs filename dir other s fresh here =
    let stored = find-store (take 255 filename) other s fs in
    rw (fresh, here, upload_file) (==_refl (length s), stored)

-- A download that succeeds leaves every file of the server as it was.
pub download_file_same :
    (c : Calls) (fs : Files) (filename other : Text)
    → length filename ≤ 255
    → (download_file c fs filename).0 ≡ true
    → find other (download_file c fs filename).1 ≡ find other fs
unfolding download_file transfer written
download_file_same c fs filename other fits h = elim (Option-cases (find filename fs)) [
  | inl gone ↦ ground (arith, gone, take_all 255 filename fits)
  | inr (s, here) ↦
      let full = take_all 255 filename fits in
      elim (Bool-cases (c.readable && c.allocates && c.reads_whole && c.writable)) [
        | inl granted ↦
            let all = written_all c s in
            let same = store_same filename other s fs here in
            ground (arith, full, here, granted, h, all, same)
        | inr refused ↦ ground (arith, full, here, refused)
      ]
]
