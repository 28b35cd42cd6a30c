-- ===== src/PideShop/Main/Connections.antt =====
-- The connections of Final/server.c, and its handler of SIGINT.
use system_programming_cse.Common.{
  ◌≡◌, refl, ◌∙◌, sym, Bool, true, false, Option, some, none, ℕ, List, [], ◌∷◌, ◌++◌, map,
  append-nil, append_assoc, Text, codes,
}
use system_programming_cse.PideShop.Threads.{client_handler, socket, Thread, create_thread}
use system_programming_cse.PideShop.Main.{OpenServer, log_activity, accept_loop, signal_handler}

-- The sockets up to the first call that fails, and whether there is such a call.
abbrev pub accepted : List (Option ℕ) → List ℕ
accepted [] = []
accepted (none ∷ fds) = []
accepted (some fd ∷ fds) = fd ∷ accepted fds

abbrev pub fails : List (Option ℕ) → Bool
fails [] = false
fails (none ∷ fds) = true
fails (some fd ∷ fds) = fails fds

abbrev pub handler_of : ℕ → Thread
handler_of fd = record { worker = client_handler; argument = socket fd }

abbrev pub connection_line : ℕ → Text
connection_line fd = codes "Accepted new client connection\n"

-- Each connection up to the first failure of `accept` gets one thread, which has its socket, and one line
-- in the log; the failure ends the program; and the handler of SIGINT cancels the same threads however
-- many connections there are.
pub accept_loop-accepted :
    (fds : List (Option ℕ)) (r : OpenServer)
    → let (s, ended) = accept_loop fds r in
      (s.threads ≡ r.threads ++ map handler_of (accepted fds))
      × (s.log ≡ r.log ++ map connection_line (accepted fds))
      × (ended ≡ fails fds)
      × (signal_handler s ≡ signal_handler r)
unfolding accept_loop log_activity create_thread signal_handler
accept_loop-accepted [] r = (sym (append-nil r.threads), sym (append-nil r.log), refl, refl)
accept_loop-accepted (none ∷ fds) r =
    (sym (append-nil r.threads), sym (append-nil r.log), refl, refl)
accept_loop-accepted (some fd ∷ fds) r =
    let s = record (log_activity (codes "Accepted new client connection") r) {
      threads = r.threads ++ handler_of fd ∷ [];
    } in
    let (threads, log, ended, handler) = accept_loop-accepted fds s in
    (
      threads ∙ append_assoc r.threads (handler_of fd ∷ []) (map handler_of (accepted fds)),
      log ∙ append_assoc r.log (connection_line fd ∷ []) (map connection_line (accepted fds)),
      ended,
      handler,
    )
