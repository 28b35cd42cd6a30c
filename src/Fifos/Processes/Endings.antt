-- ===== src/Fifos/Processes/Endings.antt =====
-- How the processes of Homework2/hw2.c end.
use system_programming_cse.Common.{
  ℕ, ◌+◌, suc, ◌≤◌, ◌<◌, ◌≡◌, refl, sym, subst, ◌⊎◌, inl, inr, Bool, true, false, Bool-cases, [],
  ◌∷◌, arith,
}
use system_programming_cse.Fifos.Processes.Invariant.{report, Inv, both_started-Inv, Reach-Inv}
use system_programming_cse.Fifos.Processes.{
  ChildState, running, zombie, reported, waited, Parent, spinning, waiting, finished, Which, first,
  second, all_exited, heading, exiting, Processes, child, IsNoZombie, IsGone, becomes_zombie,
  handler_reaps, leaves_loop, main_reaps, main_returns, Step, child_exits, handler_starts,
  handler_waitpid, handler_returns, loop_ends, main_wait, main_ends, Reach, here, next,
  both_started,
}

-- How many steps may still come.
abbrev child_work : ChildState → ℕ
child_work running = 5
child_work zombie = 1
child_work _ = 0

abbrev parent_work : Parent → ℕ
parent_work spinning = 2
parent_work waiting = 1
parent_work finished = 0

abbrev flag : ℕ → Bool → ℕ
flag n true = n
flag n false = 0

unfoldable pub work : Processes → ℕ
work s =
    child_work s.child1
    + child_work s.child2
    + parent_work s.parent
    + flag 2 s.is_pending
    + flag 1 s.in_handler

module _ (status : Which → ℕ) (exits : Which → Bool) where
  -- Every step lowers the number of steps that may still come.
  Step-work : {s t : Processes} → Step status exits s t → work t < work s
  unfolding work becomes_zombie handler_reaps leaves_loop main_reaps main_returns
  Step-work {s} (child_exits w x e) = ground arith
  Step-work {s} (handler_starts e f g) = ground arith
  Step-work {s} (handler_waitpid w e f) = ground arith
  Step-work {s} (handler_returns e f g) = ground arith
  Step-work {s} (loop_ends e f g) = ground arith
  Step-work {s} (main_wait w e f g) = ground arith
  Step-work {s} (main_ends e f g h) = ground arith

  abbrev pub steps : {s t : Processes} → Reach status exits s t → ℕ
  steps here = 0
  steps (next r st) = suc (steps r)

  Reach-work : {s t : Processes} (r : Reach status exits s t) → steps r + work t ≤ work s
  Reach-work here = omega arith
  Reach-work (next r st) = omega (arith, Reach-work r, Step-work st)

  zombie-cases : (c : ChildState) → (c ≡ zombie) ⊎ IsNoZombie c
  zombie-cases zombie = inl refl
  zombie-cases running = inr tt
  zombie-cases reported = inr tt
  zombie-cases waited = inr tt

  -- The handler that runs can go on.
  handler-Step : (s : Processes) → s.in_handler ≡ true → (t : Processes) × Step status exits s t
  handler-Step s e = elim (zombie-cases s.child1) [
    | inl f ↦ (_, handler_waitpid first e f)
    | inr f ↦ elim (zombie-cases s.child2) [
      | inl g ↦ (_, handler_waitpid second e g)
      | inr g ↦ (_, handler_returns e f g)
    ]
  ]

  -- A child that is there is fetched in the end, or something can be done about it.
  child-Step :
      (s : Processes) (w : Which)
      → exits w ≡ true
      → s.in_handler ≡ false
      → s.parent ≡ spinning
      → Inv status s
      → ((t : Processes) × Step status exits s t) ⊎ (child w s ≡ reported)
  child-Step s w x f g v = go (child w s) refl
    where
      go :
          (c : ChildState)
          → child w s ≡ c
          → ((t : Processes) × Step status exits s t) ⊎ (child w s ≡ reported)
      go running h = inl (_, child_exits w x h)
      go zombie h =
          inl (_, handler_starts (ground (arith, f, v.signalled w h)) f (λ q. ground (arith, g, q)))
      go reported h = inr h
      go waited h = absurd (v.unwaited w h)

  next-Step :
      (s : Processes)
      → ((w : Which) → exits w ≡ true)
      → Inv status s
      → ((t : Processes) × Step status exits s t) ⊎ (s.parent ≡ finished)
  next-Step s all v = elim (Bool-cases s.in_handler) [
    | inl h ↦ inl (handler-Step s h)
    | inr h ↦ go h s.parent refl
  ]
    where
      go :
          s.in_handler ≡ false
          → (p : Parent) → s.parent ≡ p
          → ((t : Processes) × Step status exits s t) ⊎ (s.parent ≡ finished)
      go h spinning q = elim (child-Step s first (all first) h q v) [
        | inl step ↦ inl step
        | inr a ↦ elim (child-Step s second (all second) h q v) [
          | inl step ↦ inl step
          | inr b ↦ inl (_, loop_ends q h (ground (arith, a, b, v.counted)))
        ]
      ]
      go h waiting q =
          let done : (s.child1 ≡ reported) × (s.child2 ≡ reported) = ground (arith, q, v.past) in
          inl (_, main_ends q h (subst IsGone (sym done.0) tt) (subst IsGone (sym done.1) tt))
      go h finished q = inr q

  finished-printed :
      {t : Processes}
      → Inv status t
      → t.parent ≡ finished
      → (t.printed
          ≡ report status first ∷ report status second ∷ all_exited ∷ heading ∷ exiting ∷ [])
        ⊎ (t.printed
            ≡ report status second ∷ report status first ∷ all_exited ∷ heading ∷ exiting ∷ [])
  finished-printed v e = ground (arith, e, v.past, v.log, v.output)

  -- Where nothing blocks a child for ever on a FIFO, so that both come to their exits: the processes take at
  -- most twelve steps, where the rounds of the busy loop do not count; after any steps some process can go on, or the parent has
  -- ended, and then the handler has printed the exit status of each child once, in either order, before the
  -- heading of the exit statuses, and below the heading there is none.
  pub both_started-finished :
      {t : Processes} (r : Reach status exits both_started t)
      → ((w : Which) → exits w ≡ true)
      → (steps r ≤ 12)
        × (((u : Processes) × Step status exits t u)
            ⊎ ((t.parent ≡ finished)
                × ((t.printed
                      ≡ report status first
                        ∷ report status second
                        ∷ all_exited
                        ∷ heading
                        ∷ exiting
                        ∷ [])
                    ⊎ (t.printed
                        ≡ report status second
                          ∷ report status first
                          ∷ all_exited
                          ∷ heading
                          ∷ exiting
                          ∷ []))))
  unfolding both_started work
  both_started-finished {t} r all =
      let v = Reach-Inv status r (both_started-Inv status) in
      (
        omega (arith, Reach-work r),
        elim (next-Step t all v) [ inl step ↦ inl step | inr e ↦ inr (e, finished-printed v e) ],
      )
