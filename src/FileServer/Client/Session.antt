-- ===== src/FileServer/Client/Session.antt =====
-- What a client of Midterm/client.c sends for the lines that are typed.
use system_programming_cse.Common.{
  ◌<◌, ◌≡◌, refl, sym, subst, ap₂, ◌∙◌, true, some, List, [], ◌∷◌, ◌++◌, append_assoc, append-nil,
  map, Text, codes, length,
}
use system_programming_cse.Common.Strings.{Clean}
use system_programming_cse.FileServer.Command.{Command, parse_command}
use system_programming_cse.FileServer.Requests.{Request}
use system_programming_cse.FileServer.Client.{
  newline, Client, Outcome, running, exited, undefined, Round, proceed, round, loop,
}
use system_programming_cse.FileServer.Client.Rounds.{
  Ends, IsRead, requests_of, read_message-line, proceed_sends,
}

-- A line, the command that it is parsed as, and what the system does for it.
abbrev pub Line : Type 0
Line = Round × Text × Command

-- The line fits the array, and the system grants what is asked of it.
abbrev pub IsTyped : Line → Type 0
IsTyped (r, line, command) =
    Clean newline line
    × length line < 99
    × (parse_command r.cwd line ≡ some command)
    × (r.writes_first ≡ true)
    × (r.writes ≡ true)
    × IsRead r.reply

abbrev pub AreTyped : List Line → Type 0
AreTyped [] = Unit {0}
AreTyped (l ∷ ls) = IsTyped l × AreTyped ls

abbrev pub text_of : List Line → Text
text_of [] = []
text_of ((r, line, command) ∷ ls) = line ++ b'\n' ∷ text_of ls

abbrev pub all_requests : Client → List Line → List Request
all_requests c [] = []
all_requests c ((r, line, command) ∷ ls) = requests_of c command ++ all_requests c ls

round_sends :
    (l : Line) (rest : Text) (c : Client)
    → IsTyped l
    → c.stdin ≡ l.1 ++ b'\n' ∷ rest
    → Ends c rest (c.sent ++ requests_of c l.2) (round l.0 c)
unfolding round
round_sends (r, line, command) rest c (clean, fits, parsed, first, later, read) e =
    let asked = record c { output = c.output ++ codes "Enter command: " } in
    let message = read_message-line line rest asked clean fits e in
    let told = record asked { stdin = rest; message = line } in
    subst (λ d. Ends c rest (c.sent ++ requests_of c command) (proceed r d)) (sym message)
      (proceed_sends r command told parsed first later read)

outcome_transfer :
    (c d : Client) (stdin : Text) (sent : List Request) (o : Outcome)
    → d.pid ≡ c.pid
    → d.connection_type ≡ c.connection_type
    → Ends d stdin sent o
    → Ends c stdin sent o
outcome_transfer c d stdin sent (running e) p t (p', t', i, s) = (p' ∙ p, t' ∙ t, i, s)
outcome_transfer c d stdin sent (exited e) p t h = h
outcome_transfer c d stdin sent (undefined e) p t h = h

requests_of_same :
    (c d : Client) (command : Command)
    → d.pid ≡ c.pid
    → d.connection_type ≡ c.connection_type
    → requests_of d command ≡ requests_of c command
requests_of_same c d command p t = rw (p, t) refl

-- The loop on what a round has left.
loop_on : List Round → Outcome → Outcome
loop_on rs (running d) = loop rs d
loop_on rs (exited d) = exited d
loop_on rs (undefined d) = undefined d

loop_on-Ends :
    (ls : List Line) (rest : Text) (c : Client) (o : Outcome) (sent : List Request)
    → AreTyped ls
    → Ends c (text_of ls ++ rest) sent o
    → Ends c rest (sent ++ all_requests c ls) (loop_on (map (λ l. l.0) ls) o)
unfolding loop_on loop
loop_on-Ends ls rest c (exited d) sent typed h = h
loop_on-Ends ls rest c (undefined d) sent typed h = h
loop_on-Ends [] rest c (running d) sent typed (p, t, e, s) = (p, t, e, s ∙ sym (append-nil sent))
loop_on-Ends ((r, line, command) ∷ ls) rest c (running d) sent (typed, more) (p, t, e, s) =
    let sends =
      round_sends (r, line, command) (text_of ls ++ rest) d typed (e ∙ append_assoc line _ rest) in
    let same =
      outcome_transfer c d (text_of ls ++ rest) (d.sent ++ requests_of d command) (round r d) p t
        sends in
    let one =
      subst (λ l. Ends c (text_of ls ++ rest) l (round r d))
        (ap₂ (λ x y. x ++ y) s (requests_of_same c d command p t)) same in
    let all = loop_on-Ends ls rest c (round r d) (sent ++ requests_of c command) more one in
    subst (λ l. Ends c rest l (loop_on (map (λ l. l.0) ls) (round r d)))
      (append_assoc sent (requests_of c command) (all_requests c ls)) all

abbrev pub sent_after : Outcome → List Request
sent_after (running d) = d.sent
sent_after (exited d) = d.sent
sent_after (undefined d) = d.sent

Ends-sent :
    (c : Client) (stdin : Text) (sent : List Request) (o : Outcome)
    → Ends c stdin sent o
    → sent_after o ≡ sent
Ends-sent c stdin sent (running d) (p, t, i, s) = s
Ends-sent c stdin sent (exited d) h = absurd h
Ends-sent c stdin sent (undefined d) h = absurd h

-- For lines that fit the array and are parsed as commands, where the requests are written and the
-- responses are read or the FIFO is closed, the client sends the requests of these commands in
-- their order: none for an invalid command, two for killServer, one for every other.
pub loop-all_requests :
    (ls : List Line) (rest : Text) (c : Client)
    → AreTyped ls
    → c.stdin ≡ text_of ls ++ rest
    → sent_after (loop (map (λ l. l.0) ls) c) ≡ c.sent ++ all_requests c ls
unfolding loop loop_on
loop-all_requests ls rest c typed e =
    Ends-sent c rest (c.sent ++ all_requests c ls) (loop (map (λ l. l.0) ls) c)
      (loop_on-Ends ls rest c (running c) c.sent typed (refl, refl, e, refl))
