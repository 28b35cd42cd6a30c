-- ===== src/FileServer/Files/Tests.antt =====
-- The file operations on small files.
use system_programming_cse.Common.{
  ◌≡◌, refl, true, Option, none, some, List, [], ◌∷◌, if◌then◌else◌, Text, codes, text_eq,
}
use system_programming_cse.Common.Strings.{negsuc}
use system_programming_cse.FileServer.Files.{
  Files, generous, find, store, read_file, upload_file, download_file, transfer, written,
}
use system_programming_cse.FileServer.Files.Store.{find-store}
use system_programming_cse.FileServer.Files.Lines.{read_file_whole, ends, concat}
use system_programming_cse.FileServer.Files.Transfers.{upload_file_keeps}

abbrev two_lines : List Text
two_lines = codes "ab" ∷ codes "c" ∷ []

abbrev some_files : Files
some_files = (codes "f", concat (ends two_lines)) ∷ (codes "g", codes "x") ∷ []

abbrev at_client : Text → Option Text
at_client path = if text_eq path (codes "d/h") then some (codes "new") else none

find-store_example :
    find (codes "f") (store (codes "g") (codes "y") some_files) ≡ some (codes "ab\nc\n")
find-store_example = find-store (codes "g") (codes "f") (codes "y") some_files

read_file_whole_example :
    read_file generous some_files (codes "f") (negsuc 0) ≡ some (codes "ab\nc\n")
read_file_whole_example =
    read_file_whole generous some_files (codes "f") b'a' (codes "b\nc\n") refl refl refl
      (refl, (refl, (refl, (refl, (refl, tt)))))

upload_file_keeps_example :
    find (codes "g") (upload_file generous at_client some_files (codes "h") (codes "d")).1
    ≡ some (codes "x")
upload_file_keeps_example =
    upload_file_keeps generous at_client some_files (codes "h") (codes "d") (codes "g") (codes "x")
      refl

downloads : (download_file generous some_files (codes "f")).0 ≡ true
unfolding download_file transfer written
downloads = refl
