-- ===== src/FileServer/Client/Shutdown.antt =====
-- What the commands of a client of Midterm/client.c do to the processes of the server in Midterm/server.c.
use system_programming_cse.Common.{
  ℕ, suc, ◌+◌, ◌-◌, ◌*◌, ◌≡◌, refl, sym, ap, subst, ◌∙◌, true, false, List, [], ◌∷◌, ◌++◌, map,
  if◌then◌else◌, arith, Text, length,
}
use system_programming_cse.Common.Strings.{ℤ}
use system_programming_cse.FileServer.Command.{OperationType, kill_server, is_kill}
use system_programming_cse.FileServer.Requests.{World, Env}
use system_programming_cse.FileServer.Main.{run, start}
use system_programming_cse.FileServer.Main.Killing.{
  all_with, processes, connecting, start-greeted, run-append,
}
use system_programming_cse.FileServer.Main.Counting.{kill_requests, NoneConnects, run-processes}
use system_programming_cse.FileServer.Command.Parse.{parse_command-connects}
use system_programming_cse.FileServer.Client.{Client, is_invalid, loop}
use system_programming_cse.FileServer.Client.Session.{
  Line, AreTyped, text_of, all_requests, sent_after, loop-all_requests,
}

-- The number of lines with killServer.
abbrev pub kills : List Line → ℕ
kills [] = 0
kills ((r, line, command) ∷ ls) =
    let rest = kills ls in if is_kill command.operation_type then suc rest else rest

is_invalid-is_kill : (o : OperationType) → is_invalid o ≡ true → is_kill o ≡ false
is_invalid-is_kill kill_server h = cc
is_invalid-is_kill o h = refl

all_requests-kill_requests :
    (c : Client) (ls : List Line) → kill_requests (all_requests c ls) ≡ 2 * kills ls
all_requests-kill_requests c [] = omega arith
all_requests-kill_requests c ((r, line, command) ∷ ls) =
    ground (arith, is_invalid-is_kill command.operation_type, all_requests-kill_requests c ls)

all_requests-NoneConnects :
    (c : Client) (ls : List Line) → AreTyped ls → NoneConnects (all_requests c ls)
all_requests-NoneConnects c [] typed = tt
all_requests-NoneConnects c ((r, line, command) ∷ ls)
      ((clean, fits, parsed, first, later, read), more) =
    let connects = parse_command-connects r.cwd line command parsed in
    let others = all_requests-NoneConnects c ls more in ground (arith, connects, others)

-- After some clients have connected, each line with killServer of a client ends two processes of
-- the server, since the client sends it twice, and no other line ends one.
pub loop-processes :
    (env : Env) (max_clients : ℤ) (pids : List ℕ) (w : World) (ls : List Line) (rest : Text)
    (c : Client)
    → env.fifo_opens ≡ true
    → env.answers ≡ true
    → AreTyped ls
    → c.stdin ≡ text_of ls ++ rest
    → c.sent ≡ []
    → processes (
        run max_clients
          (all_with env (map connecting pids)
            ++ all_with env (sent_after (loop (map (λ l. l.0) ls) c)))
          (start w))
      ≡ length pids + 1 - 2 * kills ls
loop-processes env max_clients pids w ls rest c opens answers typed e fresh =
    let connected = all_with env (map connecting pids) in
    let sent = loop-all_requests ls rest c typed e ∙ ap (λ l. l ++ all_requests c ls) fresh in
    let others = subst NoneConnects (sym sent) (all_requests-NoneConnects c ls typed) in
    let said = sent_after (loop (map (λ l. l.0) ls) c) in
    let left = run-processes env max_clients said (run max_clients connected (start w)) others in
    let before = (start-greeted env max_clients pids w opens answers).0 in
    let apart = ap processes (run-append max_clients connected (all_with env said) (start w)) in
    let count = ap kill_requests sent ∙ all_requests-kill_requests c ls in
    omega (arith, apart, left, before, count)
