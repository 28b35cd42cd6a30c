-- ===== src/FileServer/Command/Tests.antt =====
-- Commands as a client types them.
use system_programming_cse.Common.{◌≡◌, refl, true, none, some, arith, codes, is_some}
use system_programming_cse.Common.Strings.{pos, negsuc, strtok, atoi}
use system_programming_cse.FileServer.Command.{upload, parse_command, connect_or_tryconnect}
use system_programming_cse.FileServer.Command.Parse.{parse_command-defined}

upload_command :
    parse_command (some (codes "/home")) (codes "upload a.txt")
    ≡ some (record {
      operation_type = upload;
      filename = codes "a.txt";
      line = negsuc 0;
      payload = codes "/home";
    })
unfolding parse_command strtok
upload_command = refl

atoi_limits : (atoi (codes " 12x") ≡ pos 12) × (atoi (codes "-7") ≡ negsuc 6)
unfolding atoi
atoi_limits = (refl, refl)

modes :
    (connect_or_tryconnect (some (codes "tryConnect")) ≡ pos 1)
    × (connect_or_tryconnect none ≡ negsuc 0)
unfolding connect_or_tryconnect
modes = (refl, refl)

parse_command-defined_example :
    is_some (parse_command (some (codes "/home")) (codes "help list")) ≡ true
parse_command-defined_example =
    parse_command-defined (codes "/home") (codes "help list") (omega arith) (omega arith) (λ e. cc)
