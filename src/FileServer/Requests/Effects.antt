-- ===== src/FileServer/Requests/Effects.antt =====
-- What a request does to the queues, the responses and the files.
use system_programming_cse.Common.{
  ℕ, ◌≤◌, ◌≡◌, ◌≢◌, refl, sym, subst, ◌∙◌, ap, Bool, true, false, Option, none, some, [], ◌∷◌,
  arith, length, length-append,
}
use system_programming_cse.Common.Strings.{ℤ, pos}
use system_programming_cse.FileServer.Command.{
  ConnectionType, connect, try_connect, OperationType, no_operation,
}
use system_programming_cse.FileServer.Requests.{
  Request, Queues, World, Env, is_count, join_waiting, join_connected, admit, admit_request, serve,
  ending, handle_request,
}

ending-some :
    (b : Bool) (q : Queues) (o : Option World) (q' : Queues) (w' : World)
    → ending b q o ≡ some (q', w')
    → (q ≡ q') × (o ≡ some w')
unfolding ending
ending-some b q none q' w' e = cc
ending-some true q (some w) q' w' e = (cc, cc)
ending-some false q (some w) q' w' e = cc

-- A request that is handled leaves the queues of its admission.
handle_request-admit_request :
    (env : Env) (max_clients : ℤ) (r : Request) (q : Queues) (w : World) (q' : Queues) (w' : World)
    → handle_request env max_clients r (q, w) ≡ some (q', w')
    → ((admit_request env max_clients r.operation_type r.connection_type r.client_pid (q, w)).0
        ≡ q')
      × (serve env r.operation_type r.client_pid r.command
            (admit_request env max_clients r.operation_type r.connection_type r.client_pid (q, w)).1
          ≡ some w')
unfolding handle_request
handle_request-admit_request env max_clients r q w q' w' e =
    let (u, v) =
      admit_request env max_clients r.operation_type r.connection_type r.client_pid (q, w) in
    ending-some env.fifo_opens u (serve env r.operation_type r.client_pid r.command v) q' w' e

admit-capacity :
    (env : Env) (max_clients : ℕ) (t : ConnectionType) (pid : ℕ) (q : Queues) (w : World)
    → length q.connected_list ≤ max_clients
    → length (admit env (pos max_clients) t pid (q, w)).0.connected_list ≤ max_clients
unfolding admit is_count join_waiting join_connected
admit-capacity env max_clients connect pid q w h =
    ground (arith, length-append q.connected_list (pid ∷ []))
admit-capacity env max_clients try_connect pid q w h =
    ground (arith, length-append q.connected_list (pid ∷ []))

admit_request-capacity :
    (env : Env) (max_clients : ℕ) (o : OperationType) (t : ConnectionType) (pid : ℕ) (q : Queues)
    (w : World)
    → length q.connected_list ≤ max_clients
    → length (admit_request env (pos max_clients) o t pid (q, w)).0.connected_list ≤ max_clients
unfolding admit_request
admit_request-capacity env max_clients no_operation t pid q w h =
    admit-capacity env max_clients t pid q w h
admit_request-capacity env max_clients _ t pid q w h = h

-- Admitting a client keeps the number of connected clients within the limit, and so does every
-- other request.
pub handle_request-capacity :
    (env : Env) (max_clients : ℕ) (r : Request) (q : Queues) (w : World) (q' : Queues) (w' : World)
    → length q.connected_list ≤ max_clients
    → handle_request env (pos max_clients) r (q, w) ≡ some (q', w')
    → length q'.connected_list ≤ max_clients
handle_request-capacity env max_clients r q w q' w' h e =
    let (same, done) = handle_request-admit_request env (pos max_clients) r q w q' w' e in
    subst (λ (u : Queues). length u.connected_list ≤ max_clients) same
      (admit_request-capacity env max_clients r.operation_type r.connection_type r.client_pid q w h)

pub admit_request-other :
    (env : Env) (max_clients : ℤ) (o : OperationType) (t : ConnectionType) (pid : ℕ)
    (s : Queues × World)
    → o ≢ no_operation
    → admit_request env max_clients o t pid s ≡ s
unfolding admit_request
admit_request-other env max_clients no_operation t pid s h = absurd (h refl)
admit_request-other env max_clients _ t pid s h = refl

-- A request other than a connection changes neither queue.
pub handle_request-queues :
    (env : Env) (max_clients : ℤ) (r : Request) (q : Queues) (w : World) (q' : Queues) (w' : World)
    → r.operation_type ≢ no_operation
    → handle_request env max_clients r (q, w) ≡ some (q', w')
    → q' ≡ q
handle_request-queues env max_clients r q w q' w' h e =
    let (same, done) = handle_request-admit_request env max_clients r q w q' w' e in
    let kept =
      admit_request-other env max_clients r.operation_type r.connection_type r.client_pid (q, w)
        h in
    sym same ∙ ap (λ (s : Queues × World). s.0) kept
