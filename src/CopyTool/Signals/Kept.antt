-- ===== src/CopyTool/Signals/Kept.antt =====
-- Every step of the threads of hw5.c keeps who sleeps.
use system_programming_cse.Common.{
  ℕ, suc, ◌≡◌, ◌≢◌, refl, sym, ◌∙◌, ap, subst, ◌⊎◌, inl, inr, Bool, true, false, none, some, List,
  [], ◌∷◌, ◌++◌, arith, length-set, get_elem?, set, ℕ_discrete,
}
use system_programming_cse.CopyTool.Buffer.{Buffer, Pair}
use system_programming_cse.CopyTool.Walk.{Action}
use system_programming_cse.CopyTool.Barrier.{Barrier, outside, barrier_wait, opening}
use system_programming_cse.CopyTool.Barrier.Order.{Step-Inv, barrier_wait-length}
use system_programming_cse.CopyTool.Barrier
use system_programming_cse.CopyTool.Threads.{
  apply, set_done, Worker, looking, copying, look, add_bytes, pairs_of,
}
use system_programming_cse.CopyTool.Signals.{
  broadcast, is_signalled, Signals, signal_not_full, Threaded, Step, manager_acts, manager_waits,
  manager_ends, manager_arrives, worker_looks, worker_waits, worker_copies, worker_closes,
  worker_arrives,
}
use system_programming_cse.CopyTool.Signals.Sleepers.{
  Rested, Woken, get_elem?-set_other, length-broadcast, broadcast_awake, Signal-Woken, apply-flag,
  apply-count, look-flag, told_asleep, look-waits,
}

module _ {s : Threaded} (v : Rested s) where
  acts_silent :
      (a : Action) {rest : List Action} {b : Buffer}
      → is_signalled a ≡ false
      → s.manager_sleeps ≡ false
      → apply a s.system.buffer ≡ some b
      → Rested (record s { system = record s.system { buffer = b; todo = rest } })
  acts_silent a {rest} {b} q m e =
      let flag = apply-flag a s.system.buffer e in
      let count = apply-count a s.system.buffer q e in
      record {
        one_each = v.one_each;
        some_worker = v.some_worker;
        full = λ h. absurd (ground (arith, m, h));
        sleeping = λ i h. ((v.sleeping i h).0, flag ∙ (v.sleeping i h).1);
        served = λ h. elim (v.served (sym flag ∙ h)) [ inl z ↦ inl (count ∙ z) | inr w ↦ inr w ];
        gate = v.gate;
        places = v.places;
      }

  acts_signal :
      (a : Action) {rest : List Action} {b : Buffer} {sleepers : List Bool}
      → s.manager_sleeps ≡ false
      → apply a s.system.buffer ≡ some b
      → Woken s.sleepers sleepers
      → Rested
          (record s { system = record s.system { buffer = b; todo = rest }; sleepers = sleepers })
  acts_signal a {rest} {b} {sleepers} m e w =
      let flag = apply-flag a s.system.buffer e in
      record {
        one_each = w.size ∙ v.one_each;
        some_worker = omega (arith, w.size, v.some_worker);
        full = λ h. absurd (ground (arith, m, h));
        sleeping = λ i h. let old = v.sleeping i (w.others i h) in (old.0, flag ∙ old.1);
        served = λ h. inr w.one_awake;
        gate = v.gate;
        places = v.places;
      }

  waits-Rested :
      {a : Action} {rest : List Action}
      → s.system.todo ≡ a ∷ rest
      → s.system.buffer.count ≡ s.system.buffer.max_size
      → Rested (record s { manager_sleeps = true })
  waits-Rested e c = record {
    one_each = v.one_each;
    some_worker = v.some_worker;
    full = λ h. (c, λ n. ground (arith, n, e));
    sleeping = v.sleeping;
    served = v.served;
    gate = v.gate;
    places = v.places;
  }

  ends-Rested :
      s.manager_sleeps ≡ false
      → Rested (record s {
        system = record s.system { buffer = set_done s.system.buffer };
        sleepers = broadcast s.sleepers;
      })
  unfolding set_done
  ends-Rested m = record {
    one_each = length-broadcast s.sleepers ∙ v.one_each;
    some_worker = omega (arith, length-broadcast s.sleepers, v.some_worker);
    full = λ h. absurd (ground (arith, m, h));
    sleeping = λ i h. absurd (broadcast_awake s.sleepers i h);
    served = λ h. absurd (ground (arith, h));
    gate = v.gate;
    places = v.places;
  }

  arrives-Rested :
      (i : ℕ)
      → get_elem? s.barrier.threads i ≡ some outside
      → Rested (record s { barrier = barrier_wait i s.barrier })
  arrives-Rested i e = record {
    one_each = v.one_each;
    some_worker = v.some_worker;
    full = v.full;
    sleeping = v.sleeping;
    served = v.served;
    gate = Step-Inv (Barrier.arrive i e) v.gate;
    places = barrier_wait-length s.barrier i ∙ v.places;
  }

  looks-Rested :
      (i : ℕ) {w : Worker} {b : Buffer}
      → get_elem? s.sleepers i ≡ some false
      → look s.system.buffer ≡ some (w, b)
      → Rested (record s {
        system = record s.system {
          buffer = b;
          workers = set s.system.workers i w;
          handed = s.system.handed ++ pairs_of w;
        };
        manager_sleeps = signal_not_full w s.manager_sleeps;
      })
  looks-Rested i {w} {b} e f =
      let (flag, told) = look-flag s.system.buffer f in
      record {
        one_each = v.one_each ∙ sym (length-set s.system.workers i w);
        some_worker = v.some_worker;
        full = λ h. go told h;
        sleeping = λ j h. elim (ℕ_discrete i j) [
          | yes p ↦ absurd (ground (arith, sym e ∙ ap (get_elem? s.sleepers) p ∙ h))
          | no n ↦ (
            get_elem?-set_other s.system.workers i j w n ∙ (v.sleeping j h).0,
            flag ∙ (v.sleeping j h).1,
          )
        ];
        served = λ h. inr (i, e);
        gate = v.gate;
        places = v.places ∙ ap suc (sym (length-set s.system.workers i w));
      }
    where
      go :
          (signal_not_full w true ≡ false) ⊎ (b ≡ s.system.buffer)
          → signal_not_full w s.manager_sleeps ≡ true
          → (b.count ≡ b.max_size) × (s.system.todo ≢ [])
      go (inl q) h = absurd (ground (arith, q, (told_asleep w s.manager_sleeps h).0))
      go (inr q) h =
          let (c, n) = v.full (told_asleep w s.manager_sleeps h).1 in
          (ap (λ x. x.count) q ∙ c ∙ sym (ap (λ x. x.max_size) q), n)

  sleeps-Rested :
      (i : ℕ)
      → get_elem? s.system.workers i ≡ some looking
      → look s.system.buffer ≡ none
      → Rested (record s { sleepers = set s.sleepers i true })
  sleeps-Rested i e f =
      let (empty, going) = look-waits s.system.buffer f in
      record {
        one_each = length-set s.sleepers i true ∙ v.one_each;
        some_worker = omega (arith, length-set s.sleepers i true, v.some_worker);
        full = v.full;
        sleeping = λ j h. elim (ℕ_discrete i j) [
          | yes p ↦ (ap (get_elem? s.system.workers) (sym p) ∙ e, going)
          | no n ↦ v.sleeping j (sym (get_elem?-set_other s.sleepers i j true n) ∙ h)
        ];
        served = λ h. inl empty;
        gate = v.gate;
        places = v.places;
      }

  copies-Rested :
      (n : ℕ)
      → Rested (record s { system = record s.system { buffer = add_bytes n s.system.buffer } })
  unfolding add_bytes
  copies-Rested n = record {
    one_each = v.one_each;
    some_worker = v.some_worker;
    full = v.full;
    sleeping = v.sleeping;
    served = v.served;
    gate = v.gate;
    places = v.places;
  }

  closes-Rested :
      (i : ℕ) {p : Pair}
      → get_elem? s.system.workers i ≡ some (copying p)
      → Rested (record s { system = record s.system { workers = set s.system.workers i looking } })
  closes-Rested i e = record {
    one_each = v.one_each ∙ sym (length-set s.system.workers i looking);
    some_worker = v.some_worker;
    full = v.full;
    sleeping = λ j h. elim (ℕ_discrete i j) [
      | yes p ↦
          absurd (ground (arith, sym e ∙ ap (get_elem? s.system.workers) p ∙ (v.sleeping j h).0))
      | no n ↦ (
        get_elem?-set_other s.system.workers i j looking n ∙ (v.sleeping j h).0,
        (v.sleeping j h).1,
      )
    ];
    served = v.served;
    gate = v.gate;
    places = v.places ∙ ap suc (sym (length-set s.system.workers i looking));
  }

-- The manager waits only for a place in a full buffer.
apply-full : (a : Action) (b : Buffer) → apply a b ≡ none → b.count ≡ b.max_size
unfolding apply
apply-full (Action.put p) b e = ground arith
apply-full a b e = ground arith

acts-Rested :
    {s : Threaded} (a : Action) {rest : List Action} {b : Buffer} {sleepers : List Bool} (q : Bool)
    → is_signalled a ≡ q
    → Rested s
    → s.manager_sleeps ≡ false
    → apply a s.system.buffer ≡ some b
    → Signals q s.sleepers sleepers
    → Rested
        (record s { system = record s.system { buffer = b; todo = rest }; sleepers = sleepers })
acts-Rested a true q v m e g = acts_signal v a m e (Signal-Woken v.some_worker g)
acts-Rested {s} a {rest} {b} false q v m e g =
    subst
      (λ l.
        Rested (record s { system = record s.system { buffer = b; todo = rest }; sleepers = l }))
      (sym g) (acts_silent v a q m e)

pub Step-Rested : {s t : Threaded} → Step s t → Rested s → Rested t
Step-Rested (manager_acts {a} m e f g) v = acts-Rested a (is_signalled a) refl v m f g
Step-Rested {s} (manager_waits {a} m e f) v = waits-Rested v e (apply-full a s.system.buffer f)
Step-Rested (manager_ends m e f) v = ends-Rested v m
Step-Rested (manager_arrives e f) v = arrives-Rested v 0 f
Step-Rested (worker_looks i e f g) v = looks-Rested v i e g
Step-Rested (worker_waits i e f g) v = sleeps-Rested v i f g
Step-Rested (worker_copies i n e f) v = copies-Rested v n
Step-Rested (worker_closes i e) v = closes-Rested v i e
Step-Rested (worker_arrives i e f) v = arrives-Rested v (suc i) f
