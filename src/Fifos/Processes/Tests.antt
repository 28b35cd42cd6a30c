-- ===== src/Fifos/Processes/Tests.antt =====
-- The children of Homework2/hw2.c end with 19 and with 0, the second one first.
use system_programming_cse.Common.{ℕ, ◌≤◌, ◌≡◌, ◌≢◌, refl, ◌⊎◌, Bool, true, false, [], ◌∷◌, arith}
use system_programming_cse.Fifos.Processes.{
  reported, spinning, finished, Which, first, second, all_exited, heading, exiting, Processes,
  becomes_zombie, handler_reaps, leaves_loop, main_returns, Step, child_exits, handler_starts,
  handler_waitpid, handler_returns, loop_ends, main_ends, Reach, here, next, both_started,
}
use system_programming_cse.Fifos.Processes.Invariant.{report}
use system_programming_cse.Fifos.Processes.Endings.{both_started-finished, steps}

abbrev status : Which → ℕ
status first = 19
status second = 0

-- Neither is blocked.
abbrev exits : Which → Bool
exits w = true

spinning-finished : spinning ≢ finished
spinning-finished e = ground (arith, e)

abbrev last : Processes
last = record {
  child1 = reported;
  child2 = reported;
  parent = finished;
  child_exit_count = 2;
  is_pending = false;
  in_handler = false;
  printed = report status second ∷ report status first ∷ all_exited ∷ heading ∷ exiting ∷ [];
}

-- Both have ended before the handler runs.
whole_run : Reach status exits both_started last
unfolding both_started becomes_zombie handler_reaps leaves_loop main_returns
whole_run =
    next
      (next
        (next
          (next
            (next
              (next (next (next here (child_exits second refl refl)) (child_exits first refl refl))
                (handler_starts refl refl spinning-finished))
              (handler_waitpid second refl refl))
            (handler_waitpid first refl refl))
          (handler_returns refl tt tt))
        (loop_ends refl refl (omega arith)))
      (main_ends refl refl tt tt)

both_started-finished_example :
    (steps status exits whole_run ≤ 12)
    × (((u : Processes) × Step status exits last u)
        ⊎ ((last.parent ≡ finished)
            × ((last.printed
                  ≡ report status first
                    ∷ report status second
                    ∷ all_exited
                    ∷ heading
                    ∷ exiting
                    ∷ [])
                ⊎ (last.printed
                    ≡ report status second
                      ∷ report status first
                      ∷ all_exited
                      ∷ heading
                      ∷ exiting
                      ∷ []))))
both_started-finished_example = both_started-finished status exits whole_run (λ w. refl)
