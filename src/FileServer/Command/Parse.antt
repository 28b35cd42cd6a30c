-- ===== src/FileServer/Command/Parse.antt =====
-- When `parse_command` is defined, and what it makes of commands as they are meant to be written.
use system_programming_cse.Common.{
  ℕ, sym, Option-cases, inl, inr, ◌<◌, ◌≤◌, ◌≡◌, ◌≢◌, refl, ◌∙◌, true, Option, none, some, [], ◌∷◌,
  ◌++◌, arith, Text, codes, length, is_some,
}
use system_programming_cse.Common.Strings.{
  skip, token, after, strtok, atoi, length-skip, length-token, length-after, Clean, strtok-word,
  strtok_last, cut,
}
use system_programming_cse.FileServer.Command.{
  OperationType, no_operation, plain, help, read_file, write_file, upload, download, archive_server,
  Command, copy, blank, named, located, line_of, read_command, write_command, operation_of,
  parse_operation, parse_command,
}

-- A token is no longer than the text that it is cut from, and neither is the rest.
strtok-short :
    (ds s : Text) {n : ℕ}
    → length s < n
    → (f : Text) × (copy n (strtok ds s).0 ≡ some f) × (length (strtok ds s).1 < n)
unfolding copy strtok
strtok-short ds s {n} h = go (skip ds s) (length-skip ds s)
  where
    go :
        (r : Text)
        → length r ≤ length s
        → (f : Text) × (copy n (cut ds r).0 ≡ some f) × (length (cut ds r).1 < n)
    go [] le = ([], refl, omega arith)
    go (c ∷ r) le = (
      token ds (c ∷ r),
      ground (arith, length-token ds (c ∷ r)),
      omega (arith, length-after ds (c ∷ r)),
    )

-- No undefined behaviour.
abbrev Defined : Option Command → Type 0
Defined o = is_some o ≡ true

named-Defined : (op : OperationType) (rest : Text) → length rest < 100 → Defined (named op rest)
unfolding named
named-Defined op rest h = let (f, e, _) = strtok-short blank rest h in ground arith

located-Defined :
    (op : OperationType) (cwd : Text) (rest : Text)
    → length rest < 100
    → length cwd < 256
    → Defined (located op (some cwd) rest)
unfolding located copy
located-Defined op cwd rest h k =
    let (f, e, _) = strtok-short blank rest h in
    let e' : copy 256 (some cwd) ≡ some cwd = fits in ground arith
  where
    fits : copy 256 (some cwd) ≡ some cwd
    fits = ground arith

read-Defined : (rest : Text) → length rest < 100 → Defined (read_command rest)
unfolding read_command
read-Defined rest h = let (f, e, _) = strtok-short blank rest h in ground arith

write-Defined : (rest : Text) → length rest < 100 → Defined (write_command rest)
unfolding write_command
write-Defined rest h =
    let (f, e, m) = strtok-short blank rest h in
    let (_, _, n) = strtok-short blank (strtok blank rest).1 m in
    let (d, e', _) =
      strtok-short (codes "\n") (strtok blank (strtok blank rest).1).1 {n = 256} (omega arith) in
    ground arith

operation-Defined :
    (op : OperationType) (cwd : Text) (rest : Text)
    → length rest < 100
    → length cwd < 256
    → Defined (parse_operation op (some cwd) rest)
unfolding parse_operation
operation-Defined help cwd rest h k = named-Defined help rest h
operation-Defined read_file cwd rest h k = read-Defined rest h
operation-Defined write_file cwd rest h k = write-Defined rest h
operation-Defined upload cwd rest h k = located-Defined upload cwd rest h k
operation-Defined download cwd rest h k = named-Defined download rest h
operation-Defined archive_server cwd rest h k = located-Defined archive_server cwd rest h k
operation-Defined op cwd rest h k = refl

-- An input of fewer than 100 bytes with a word in it is parsed without undefined behaviour, if the
-- working directory has fewer than 256 bytes.
pub parse_command-defined :
    (cwd input : Text)
    → length input < 100
    → length cwd < 256
    → skip blank input ≢ []
    → is_some (parse_command (some cwd) input) ≡ true
unfolding parse_command strtok
parse_command-defined cwd input h k word = go (skip blank input) word (length-skip blank input)
  where
    go :
        (r : Text)
        → r ≢ []
        → length r ≤ length input
        → is_some (elim (cut blank r).0 as (λ _. Option Command) [
          | none ↦ none
          | some t ↦ parse_operation (operation_of t) (some cwd) (cut blank r).1
        ])
          ≡ true
    go [] w le = absurd (w refl)
    go (c ∷ r) w le =
        operation-Defined (operation_of (token blank (c ∷ r))) cwd (after blank (c ∷ r))
          (omega (arith, length-after blank (c ∷ r))) k

-- An input with no word in it is compared as NULL: `parse_command` is undefined on it.
pub parse_command-blank :
    (cwd : Option Text) (input : Text) → skip blank input ≡ [] → parse_command cwd input ≡ none
unfolding parse_command strtok
parse_command-blank cwd input e = ground arith

parse_command-word :
    (cwd : Option Text) (input t rest : Text)
    → strtok blank input ≡ (some t, rest)
    → parse_command cwd input ≡ parse_operation (operation_of t) cwd rest
unfolding parse_command
parse_command-word cwd input t rest e = ground arith

write_command-words :
    (rest f more n content d : Text)
    → strtok blank rest ≡ (some f, more)
    → strtok blank more ≡ (some n, content)
    → (strtok (codes "\n") content).0 ≡ some d
    → length f < 100
    → length d < 256
    → write_command rest
      ≡ some (record { operation_type = write_file; filename = f; line = atoi n; payload = d })
unfolding write_command copy line_of
write_command-words rest f more n content d e₁ e₂ e₃ h k = ground arith

read_command-words :
    (rest f n : Text)
    → strtok blank rest ≡ (some f, n)
    → (strtok [] n).0 ≡ some n
    → length f < 100
    → read_command rest
      ≡ some (record { operation_type = read_file; filename = f; line = atoi n; payload = [] })
unfolding read_command copy line_of
read_command-words rest f n e₁ e₂ h = ground arith

Clean-nil : (s : Text) → Clean [] s
Clean-nil [] = tt
Clean-nil (c ∷ s) = (refl, Clean-nil s)

module _ (cwd : Option Text) (c d e : ℕ) (file number content : Text)
    (name : Clean blank (c ∷ file)) (short : length (c ∷ file) < 100) where
  -- `writeT`, a file name and a number without blanks, and a text of less than 256 bytes without a line
  -- break: the command has exactly these parts, the text with its blanks.
  pub parse_command-write_command :
      Clean blank (d ∷ number)
      → Clean (codes "\n") (e ∷ content)
      → length (e ∷ content) < 256
      → parse_command cwd
          (codes "writeT" ++ b' ' ∷ (c ∷ file ++ b' ' ∷ (d ∷ number ++ b' ' ∷ (e ∷ content))))
        ≡ some (record {
          operation_type = write_file;
          filename = c ∷ file;
          line = atoi (d ∷ number);
          payload = e ∷ content;
        })
  unfolding parse_operation operation_of
  parse_command-write_command n t small =
      let rest = c ∷ file ++ b' ' ∷ (d ∷ number ++ b' ' ∷ (e ∷ content)) in
      parse_command-word cwd (codes "writeT" ++ b' ' ∷ rest) (codes "writeT") rest (
        strtok-word blank b'w' (codes "riteT") b' ' rest
          (refl, (refl, (refl, (refl, (refl, (refl, tt)))))) refl)
      ∙ write_command-words rest (c ∷ file) (d ∷ number ++ b' ' ∷ (e ∷ content)) (d ∷ number)
          (e ∷ content) (e ∷ content)
          (strtok-word blank c file b' ' (d ∷ number ++ b' ' ∷ (e ∷ content)) name refl)
          (strtok-word blank d number b' ' (e ∷ content) n refl)
          (strtok_last (codes "\n") e content t) short small

  -- `readF`, a file name without blanks and anything behind it: the command has that name and the
  -- number at the start of the rest.
  pub parse_command-read_command :
      parse_command cwd (codes "readF" ++ b' ' ∷ (c ∷ file ++ b' ' ∷ (d ∷ number)))
      ≡ some (record {
        operation_type = read_file;
        filename = c ∷ file;
        line = atoi (d ∷ number);
        payload = [];
      })
  unfolding parse_operation operation_of
  parse_command-read_command =
      let rest = c ∷ file ++ b' ' ∷ (d ∷ number) in
      parse_command-word cwd (codes "readF" ++ b' ' ∷ rest) (codes "readF") rest (
        strtok-word blank b'r' (codes "eadF") b' ' rest (refl, (refl, (refl, (refl, (refl, tt)))))
          refl)
      ∙ read_command-words rest (c ∷ file) (d ∷ number)
          (strtok-word blank c file b' ' (d ∷ number) name refl)
          (strtok_last [] d number (Clean-nil (d ∷ number))) short

operation_of-connects : (t : Text) → operation_of t ≢ no_operation
unfolding operation_of
operation_of-connects t h = ground (arith, h)

parse_operation-operation :
    (o : OperationType) (cwd : Option Text) (rest : Text) (command : Command)
    → parse_operation o cwd rest ≡ some command
    → command.operation_type ≡ o
unfolding parse_operation named located plain read_command write_command
parse_operation-operation help cwd rest command h = ground (arith, h)
parse_operation-operation read_file cwd rest command h = ground (arith, h)
parse_operation-operation o cwd rest command h = ground (arith, h)

-- No command that is typed asks to connect.
pub parse_command-connects :
    (cwd : Option Text) (input : Text) (command : Command)
    → parse_command cwd input ≡ some command
    → command.operation_type ≢ no_operation
unfolding parse_command
parse_command-connects cwd input command h = elim (Option-cases (strtok blank input).0) [
  | inl e ↦ let undefined : parse_command cwd input ≡ none = rw (e, parse_command) refl in λ k. cc
  | inr (t, e) ↦
      let rest = (strtok blank input).1 in
      let parsed : parse_command cwd input ≡ parse_operation (operation_of t) cwd rest =
        rw (e, parse_command) refl in
      let same = parse_operation-operation (operation_of t) cwd rest command (sym parsed ∙ h) in
      λ k. operation_of-connects t (sym same ∙ k)
]
