-- ===== src/FileServer/Command/Help.antt =====
-- Midterm/server.c: the help texts, and which commands they know.
use system_programming_cse.Common.{
  ◌≡◌, ◌↔◌, refl, sym, ◌∙◌, ap, Bool, true, false, ◌∷◌, ◌++◌, if◌then◌else◌, if_lem, ◌≢◌, arith,
  Text, codes, text_eq,
}
use system_programming_cse.FileServer.Command.{
  OperationType, help, list_files, read_file, write_file, upload, download, archive_server,
  no_operation, kill_server, quit, invalid_operation, operation_of, OperationType-discrete,
}

pub help_available_operations : Text
help_available_operations =
    codes "Available comments are :\n"
    ++ codes "help, list, readF, writeT, upload, download, archServer, quit, killServer \n"

-- The quotation marks of the source are three bytes each.
write_help : Text
write_help =
    codes "writeT <file> <line #> <string>\nRequest to write the content of "
    ++ 0xE2
      ∷ 0x80
      ∷ 0x9C
      ∷ (codes "string"
          ++ 0xE2
            ∷ 0x80
            ∷ 0x9D
            ∷ (codes
                  " to the #th line the <file>, if the line # is not given writes to the end of file. "
                ++ codes
                    "If the file does not exists in Servers directory creates and edits the file at "
                ++ codes "the same time.\n"))

help_text : OperationType → Text
unfolding write_help
help_text help = codes "Display the list of possible client requests.\n"
help_text list_files =
    codes "Sends a request to display the list of files in Server's directory. (Also displays "
    ++ codes "the list received from the Server)\n"
help_text read_file =
    codes "readF <file> <line #> \nrequests to display the # line of the <file>, if no line number "
    ++ codes "is given the whole contents of the file is requested (and displayed on the client "
    ++ codes "side) \n"
help_text write_file = write_help
help_text upload =
    codes "upload <file>\nUploads the file from the current working directory of client to the "
    ++ codes "Server's directory. (Beware of the cases no file in clients current working "
    ++ codes "directory  and  file with the same name on Server's side)\n"
help_text download =
    codes "download <file>\nRequest to receive <file> from Server's directory to client side.\n"
help_text archive_server =
    codes "archServer <fileName>.tar\nUsing fork, exec and tar utilities create a child process "
    ++ codes "that will collect all the files currently available on the the Server side and "
    ++ codes "store them in the <filename>.tar archive.\n"
help_text kill_server = codes "killServer\nSends a kill request to the Server\n"
help_text quit = codes "quit\nSend write request to Server side log file"
help_text _ = codes "Invalid command\n"

pub help_for_operation : Text → Text
help_for_operation t =
    if text_eq t (codes "help")
    then help_text help
    else if text_eq t (codes "list")
    then help_text list_files
    else if text_eq t (codes "readF")
    then help_text read_file
    else if text_eq t (codes "writeT")
    then help_text write_file
    else if text_eq t (codes "upload")
    then help_text upload
    else if text_eq t (codes "download")
    then help_text download
    else if text_eq t (codes "archServer")
    then help_text archive_server
    else if text_eq t (codes "killServer")
    then help_text kill_server
    else if text_eq t (codes "quit")
    then help_text quit
    else codes "Invalid command\n"

unknown_text : codes "Invalid command\n" ≡ help_text invalid_operation
unfolding help_text
unknown_text = refl

-- One test of the two chains.
same_branch :
    (b : Bool) (x y : OperationType) {u : Text}
    → u ≡ help_text y
    → (if b then help_text x else u) ≡ help_text (if b then x else y)
same_branch true x y e = refl
same_branch false x y e = e

help_for_operation-operation_of : (t : Text) → help_for_operation t ≡ help_text (operation_of t)
unfolding help_for_operation operation_of
help_for_operation-operation_of t = same_branch (text_eq t (codes "help")) help _ (
    same_branch (text_eq t (codes "list")) list_files _ (
      same_branch (text_eq t (codes "readF")) read_file _ (
        same_branch (text_eq t (codes "writeT")) write_file _ (
          same_branch (text_eq t (codes "upload")) upload _ (
            same_branch (text_eq t (codes "download")) download _ (
              same_branch (text_eq t (codes "archServer")) archive_server _ (
                same_branch (text_eq t (codes "killServer")) kill_server _
                  (same_branch (text_eq t (codes "quit")) quit _ unknown_text))))))))

-- Only the text for words that are no command says so.
help_text_invalid :
    (op : OperationType)
    → op ≢ invalid_operation
    → op ≢ no_operation
    → help_text op ≢ codes "Invalid command\n"
unfolding help_text
help_text_invalid help m n e = ground arith
help_text_invalid op m n e = ground arith

operation_of-ne-none : (t : Text) → operation_of t ≢ no_operation
unfolding operation_of
operation_of-ne-none t =
    not_none (text_eq t (codes "help")) (λ e. cc)
      (not_none (text_eq t (codes "list")) (λ e. cc)
        (not_none (text_eq t (codes "readF")) (λ e. cc)
          (not_none (text_eq t (codes "writeT")) (λ e. cc)
            (not_none (text_eq t (codes "upload")) (λ e. cc)
              (not_none (text_eq t (codes "download")) (λ e. cc)
                (not_none (text_eq t (codes "archServer")) (λ e. cc)
                  (not_none (text_eq t (codes "killServer")) (λ e. cc)
                    (not_none (text_eq t (codes "quit")) (λ e. cc) (λ e. cc)))))))))
  where
    not_none :
        (b : Bool) {x y : OperationType}
        → x ≢ no_operation
        → y ≢ no_operation
        → (if b then x else y) ≢ no_operation
    not_none = if_lem (λ o. o ≢ no_operation)

-- `help <word>` answers "Invalid command" exactly for the words that `parse_command` reads as an
-- invalid operation: the two chains of tests know the same commands.
pub help_for_operation_invalid :
    (t : Text)
    → (help_for_operation t ≡ codes "Invalid command\n") ↔ (operation_of t ≡ invalid_operation)
help_for_operation_invalid t = (to, from)
  where
    to : help_for_operation t ≡ codes "Invalid command\n" → operation_of t ≡ invalid_operation
    to e = elim (OperationType-discrete (operation_of t) invalid_operation) [
      | yes p ↦ p
      | no p ↦ absurd (
          help_text_invalid (operation_of t) p (operation_of-ne-none t)
            (sym (help_for_operation-operation_of t) ∙ e))
    ]

    from : operation_of t ≡ invalid_operation → help_for_operation t ≡ codes "Invalid command\n"
    from p = help_for_operation-operation_of t ∙ ap help_text p ∙ sym unknown_text
