-- ===== src/Fifos/Processes.antt =====
-- The processes of Homework2/hw2.c: two children that end, the handler of SIGCHLD that counts them, and the
-- parent from its busy loop on. A read or a write of a child is no step of its own: whether a child comes to
-- its exit is an argument.
pub mod Invariant
pub mod Endings
mod Tests
use system_programming_cse.Common.{
  ℕ, ◌+◌, ◌≡◌, ◌≢◌, Bool, true, false, List, [], ◌∷◌, ◌++◌, if◌then◌else◌, ◌≤◌,
}

-- A child runs, has ended, or has been fetched by the handler or by the loop at the end of `main`.
pub data ChildState : Type 0 where
  running zombie reported waited : ChildState

-- Where the parent stands: in the loop of `parent_process`, in the loop of `wait` at the end of `main`, or at
-- its end.
pub data Parent : Type 0 where
  spinning waiting finished : Parent

pub data Which : Type 0 where
  first second : Which

-- What is printed, without the texts: what the handler says of a child, that all have exited, the heading of
-- the exit statuses, what `main` says of a child, and that it exits.
pub data Message : Type 0 where
  handler_invoked : Which → (status : ℕ) → Message
  all_exited heading exiting : Message
  exit_status : Which → (status : ℕ) → Message

-- `child_exit_count`, whether SIGCHLD is pending, and whether the handler runs.
pub record Processes : Type 0 where
  pub child1 : ChildState
  pub child2 : ChildState
  pub parent : Parent
  pub child_exit_count : ℕ
  pub is_pending : Bool
  pub in_handler : Bool
  pub printed : List Message

abbrev pub child : Which → Processes → ChildState
child first s = s.child1
child second s = s.child2

abbrev pub put_child : Which → ChildState → Processes → Processes
put_child first c s = record s { child1 = c }
put_child second c s = record s { child2 = c }

-- What is left for `wait` or for the handler: no child that has ended.
abbrev pub IsNoZombie : ChildState → Type 0
IsNoZombie zombie = ⊥
IsNoZombie _ = Unit {0}

-- No child that `wait` could wait for.
abbrev pub IsGone : ChildState → Type 0
IsGone running = ⊥
IsGone zombie = ⊥
IsGone _ = Unit {0}

pub becomes_zombie : Which → Processes → Processes
becomes_zombie w s = record (put_child w zombie s) { is_pending = true }

-- The body of the loop in `sigchld_handler`.
pub handler_reaps : Which → ℕ → Processes → Processes
handler_reaps w status s = record (put_child w reported s) {
  child_exit_count = s.child_exit_count + 1;
  printed = s.printed ++ handler_invoked w status ∷ [];
}

-- The end of `parent_process`, and the heading in `main`.
pub leaves_loop : Processes → Processes
leaves_loop s = record s { parent = waiting; printed = s.printed ++ all_exited ∷ heading ∷ [] }

-- The body of the last loop of `main`, which prints the number of the first child for either.
pub main_reaps : Which → ℕ → Processes → Processes
main_reaps w status s = record (put_child w waited s) {
  printed = s.printed ++ exit_status first status ∷ [];
}

pub main_returns : Processes → Processes
main_returns s = record s { parent = finished; printed = s.printed ++ exiting ∷ [] }

-- A step of a process; `status` is the exit status of each child, `total_children` is 2. `exits` says of each
-- child whether it comes to its exit: an open, a read or a write of a FIFO may block it for ever, and then it
-- stays as it is.
module _ (status : Which → ℕ) (exits : Which → Bool) where
  pub data Step (s : Processes) : Processes → Type 0 where
    child_exits : (w : Which) → exits w ≡ true → child w s ≡ running → Step s (becomes_zombie w s)
    handler_starts :
        s.is_pending ≡ true
        → s.in_handler ≡ false
        → s.parent ≢ finished
        → Step s (record s { is_pending = false; in_handler = true })
    handler_waitpid :
        (w : Which)
        → s.in_handler ≡ true
        → child w s ≡ zombie
        → Step s (handler_reaps w (status w) s)
    handler_returns :
        s.in_handler ≡ true
        → IsNoZombie s.child1
        → IsNoZombie s.child2
        → Step s (record s { in_handler = false })
    loop_ends :
        s.parent ≡ spinning → s.in_handler ≡ false → 2 ≤ s.child_exit_count → Step s (leaves_loop s)
    main_wait :
        (w : Which)
        → s.parent ≡ waiting
        → s.in_handler ≡ false
        → child w s ≡ zombie
        → Step s (main_reaps w (status w) s)
    main_ends :
        s.parent ≡ waiting
        → s.in_handler ≡ false
        → IsGone s.child1
        → IsGone s.child2
        → Step s (main_returns s)

  pub data Reach (s : Processes) : Processes → Type 0 where
    here : Reach s s
    next : {t u : Processes} → Reach s t → Step t u → Reach s u

-- Both children have been started, and the parent has come to its loop.
pub both_started : Processes
unfolding becomes_zombie handler_reaps leaves_loop main_reaps main_returns
both_started = record {
  child1 = running;
  child2 = running;
  parent = spinning;
  child_exit_count = 0;
  is_pending = false;
  in_handler = false;
  printed = [];
}
