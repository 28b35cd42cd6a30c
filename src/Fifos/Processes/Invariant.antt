-- ===== src/Fifos/Processes/Invariant.antt =====
-- What every step of the processes of Homework2/hw2.c keeps.
use system_programming_cse.Common.{
  ℕ, ◌+◌, ◌≤◌, ◌≡◌, ◌≢◌, refl, ◌∙◌, ap, ◌⊎◌, inl, inr, Bool, true, false, List, [], ◌∷◌, ◌++◌,
  append-nil, append_assoc, arith,
}
use system_programming_cse.Fifos.Processes.{
  ChildState, running, zombie, reported, waited, Parent, spinning, waiting, finished, Which, first,
  second, Message, handler_invoked, all_exited, heading, exiting, Processes, child, put_child,
  IsNoZombie, becomes_zombie, handler_reaps, leaves_loop, main_returns, Step, child_exits,
  handler_starts, handler_waitpid, handler_returns, loop_ends, main_wait, main_ends, Reach, here,
  next, both_started,
}

module _ (status : Which → ℕ) where
  abbrev pub report : Which → Message
  report w = handler_invoked w (status w)

  -- What the handler has printed about the children it has fetched, in either order.
  abbrev pub IsLog : ChildState → ChildState → List Message → Type 0
  IsLog reported reported out =
      (out ≡ report first ∷ report second ∷ []) ⊎ (out ≡ report second ∷ report first ∷ [])
  IsLog reported _ out = out ≡ report first ∷ []
  IsLog _ reported out = out ≡ report second ∷ []
  IsLog _ _ out = out ≡ []

  abbrev pub tally : ChildState → ℕ
  tally reported = 1
  tally _ = 0

  -- What the parent has printed behind its loops.
  abbrev pub tail : Parent → List Message
  tail spinning = []
  tail waiting = all_exited ∷ heading ∷ []
  tail finished = all_exited ∷ heading ∷ exiting ∷ []

  pub record Inv (s : Processes) : Type 0 where
    pub unwaited : (w : Which) → child w s ≢ waited
    pub counted : s.child_exit_count ≡ tally s.child1 + tally s.child2
    pub reports : List Message
    pub log : IsLog s.child1 s.child2 reports
    pub output : s.printed ≡ reports ++ tail s.parent
    pub past : (s.parent ≡ spinning) ⊎ ((s.child1 ≡ reported) × (s.child2 ≡ reported))
    pub signalled : (w : Which) → child w s ≡ zombie → (s.is_pending ≡ true) ⊎ (s.in_handler ≡ true)

  becomes_zombie-Inv :
      {s : Processes} (w : Which) → child w s ≡ running → Inv s → Inv (becomes_zombie w s)
  unfolding becomes_zombie
  becomes_zombie-Inv {s} w e v = record {
    unwaited = λ x h. ground (arith, h, v.unwaited x);
    counted = ground (arith, v.counted);
    reports = v.reports;
    log = ground (arith, v.log);
    output = ground (arith, v.output);
    past = ground (arith, v.past);
    signalled = λ x h. inl refl;
  }

  -- While a child is not fetched the parent is in its first loop.
  zombie-spinning : {s : Processes} (w : Which) → child w s ≡ zombie → Inv s → s.parent ≡ spinning
  zombie-spinning first e v = ground (arith, e, v.past)
  zombie-spinning second e v = ground (arith, e, v.past)

  output-spinning : {s : Processes} (v : Inv s) → s.parent ≡ spinning → s.printed ≡ v.reports
  output-spinning v e = v.output ∙ ap (λ p. v.reports ++ tail p) e ∙ append-nil v.reports

  IsLog-handler_reaps :
      (s : Processes) (w : Which) (reports : List Message)
      → child w s ≡ zombie
      → IsLog s.child1 s.child2 reports
      → IsLog
          (put_child w reported s).child1
          (put_child w reported s).child2
          (reports ++ report w ∷ [])
  IsLog-handler_reaps s first reports e h = ground (arith, e, h)
  IsLog-handler_reaps s second reports e h = ground (arith, e, h)

  handler_reaps-Inv :
      {s : Processes} (w : Which)
      → s.in_handler ≡ true
      → child w s ≡ zombie
      → Inv s
      → Inv (handler_reaps w (status w) s)
  unfolding handler_reaps
  handler_reaps-Inv {s} w e f v =
      let spins = zombie-spinning w f v in
      record {
        unwaited = λ x h. ground (arith, h, v.unwaited x);
        counted = ground (arith, v.counted, f);
        reports = v.reports ++ report w ∷ [];
        log = IsLog-handler_reaps s w v.reports f v.log;
        output =
            ground (arith, output-spinning v spins, spins, append-nil (v.reports ++ report w ∷ []));
        past = ground (arith, spins);
        signalled = λ x h. ground (arith, e);
      }

  starts-Inv : {s : Processes} → Inv s → Inv (record s { is_pending = false; in_handler = true })
  starts-Inv v = record {
    unwaited = λ x h. ground (arith, h, v.unwaited x);
    counted = v.counted;
    reports = v.reports;
    log = v.log;
    output = v.output;
    past = v.past;
    signalled = λ x h. inr refl;
  }

  returns-Inv :
      {s : Processes}
      → IsNoZombie s.child1
      → IsNoZombie s.child2
      → Inv s
      → Inv (record s { in_handler = false })
  returns-Inv {s} f g v = record {
    unwaited = λ x h. ground (arith, h, v.unwaited x);
    counted = v.counted;
    reports = v.reports;
    log = v.log;
    output = v.output;
    past = v.past;
    signalled = λ x h. absurd (ground (arith, f, g, h));
  }

  leaves_loop-Inv :
      {s : Processes} → s.parent ≡ spinning → 2 ≤ s.child_exit_count → Inv s → Inv (leaves_loop s)
  unfolding leaves_loop
  leaves_loop-Inv {s} e b v = record {
    unwaited = λ x h. ground (arith, h, v.unwaited x);
    counted = v.counted;
    reports = v.reports;
    log = v.log;
    output = ground (arith, output-spinning v e);
    past = inr (ground (arith, v.counted));
    signalled = λ x h. ground (arith, h, v.signalled x);
  }

  main_returns-Inv : {s : Processes} → s.parent ≡ waiting → Inv s → Inv (main_returns s)
  unfolding main_returns
  main_returns-Inv {s} e v = record {
    unwaited = λ x h. ground (arith, h, v.unwaited x);
    counted = v.counted;
    reports = v.reports;
    log = v.log;
    output =
        ap (λ out. out ++ exiting ∷ []) (v.output ∙ ap (λ p. v.reports ++ tail p) e)
        ∙ append_assoc v.reports (all_exited ∷ heading ∷ []) (exiting ∷ []);
    past = inr (ground (arith, v.past, e));
    signalled = λ x h. ground (arith, h, v.signalled x);
  }

  Step-Inv : {exits : Which → Bool} {s t : Processes} → Step status exits s t → Inv s → Inv t
  Step-Inv (child_exits w x e) v = becomes_zombie-Inv w e v
  Step-Inv (handler_starts e f g) v = starts-Inv v
  Step-Inv (handler_waitpid w e f) v = handler_reaps-Inv w e f v
  Step-Inv (handler_returns e f g) v = returns-Inv f g v
  Step-Inv (loop_ends e f g) v = leaves_loop-Inv e g v
  Step-Inv (main_wait w e f g) v = absurd (ground (arith, e, zombie-spinning w g v))
  Step-Inv (main_ends e f g h) v = main_returns-Inv e v

  pub both_started-Inv : Inv both_started
  unfolding both_started
  both_started-Inv = record {
    unwaited = λ x h. ground (arith, h);
    counted = ground arith;
    reports = [];
    log = ground arith;
    output = refl;
    past = inl refl;
    signalled = λ x h. ground (arith, h);
  }

  pub Reach-Inv : {exits : Which → Bool} {s t : Processes} → Reach status exits s t → Inv s → Inv t
  Reach-Inv here v = v
  Reach-Inv (next r st) v = Step-Inv st (Reach-Inv r v)
