-- ===== src/InitExit/Progress.antt =====
-- The ways out of `init` and of the drop, libsane/src/init_exit.rs, as runs of one thread.
use libsane_rs.Common.{
  ℕ, ◌≡◌, refl, sym, subst, ap, ◌∙◌, arith, true, false, none, some, Result, ok, err, Bool-cases,
  inl, inr,
}
use libsane_rs.InitExit.Process.{CLibrary, Process}
use libsane_rs.InitExit.Threads.{
  Pc, idle, entered, ready, refused, cleared, live, exited, Move, store, keep, init_ok, init_err,
  clear, give_up, exit, release, System, move, Reach, Steps, here, next, update,
}
use libsane_rs.InitExit.Exclusion.{Lifecycle, Reach-Inv, inside}

module _ {H L : Type 0} (c : CLibrary L) where
  -- Moves of one thread in a row, to a process and a place from others.
  pub data RunsTo (n : Process H L) (q : Pc H) : Process H L → Pc H → Type 0 where
    done : RunsTo n q n q
    after : {m k : Process H L} {p o : Pc H} → Move c m p k o → RunsTo n q k o → RunsTo n q m p

  -- From every place inside, the moves of the thread lead outside, and the flag is free then.
  abbrev Leaving : Process H L → Pc H → Type 0
  Leaving m p = (n : Process H L) × RunsTo n idle m p × (n.has_instance ≡ false)

  leave_by : {m k : Process H L} {p o : Pc H} → Move c m p k o → Leaving k o → Leaving m p
  leave_by mv (n, r, free) = (n, after mv r, free)

  leave_cleared : (m : Process H L) → Leaving m cleared
  leave_cleared m = leave_by give_up (record m { has_instance = false }, done, refl)

  leave_exited : (m : Process H L) → Leaving m exited
  leave_exited m = leave_by release (record m { has_instance = false }, done, refl)

  leave_live : (m : Process H L) (v : ℕ) → Leaving m (live v)
  leave_live m v = leave_by (exit v) (leave_exited _)

  leave_refused : (m : Process H L) → Leaving m refused
  leave_refused m = leave_by clear (leave_cleared _)

  leave_ready :
      (m : Process H L) (r : Result ℕ ℕ) (l : L) → c.sane_init m.library ≡ (r, l) → Leaving m ready
  leave_ready m (ok v) l e = leave_by (init_ok v l e) (leave_live _ v)
  leave_ready m (err s) l e = leave_by (init_err s l e) (leave_refused _)

  leave : (m : Process H L) (p : Pc H) → inside p ≡ true → Leaving m p
  leave m idle h = cc
  leave m (entered none) h = leave_by keep (leave_ready m _ _ refl)
  leave m (entered (some a)) h = leave_by (store a) (leave_ready _ _ _ refl)
  leave m ready h = leave_ready m _ _ refl
  leave m refused h = leave_refused m
  leave m cleared h = leave_cleared m
  leave m (live v) h = leave_live m v
  leave m exited h = leave_exited m

  -- A run of one thread is a run of the system, behind steps that were made before.
  RunsTo-Steps :
      {n : Process H L} {q : Pc H} {m : Process H L} {p : Pc H}
      → RunsTo n q m p
      → (s u : System H L) (i : ℕ) → Steps c u s
      → s.process ≡ m
      → s.pc i ≡ p
      → (t : System H L) × Steps c u t × (t.process ≡ n) × (t.pc i ≡ q)
  RunsTo-Steps done s u i r same at = (s, r, same, at)
  RunsTo-Steps {p = p0} (after {k = k} {o = o} mv runs) s u i r same at =
      RunsTo-Steps runs (record { process = k; pc = update s.pc i o }) u i
        (next r (
          move i (
            subst (λ x. Move c s.process x k o) (sym at)
              (subst (λ x. Move c x p0 k o) (sym same) mv))))
        refl (ground arith)

  -- From every state that threads reach from a process without an instance, further steps lead to one
  -- in which the flag is free, so that the assertion of `init` holds: no order of the steps, with any
  -- results of `sane_init`, leaves the flag set for good.
  pub Reach-free :
      {l : L} (lc : Lifecycle c) (s : System H L)
      → lc.up l ≡ false
      → Reach c l s
      → (t : System H L) × Steps c s t × (t.process.has_instance ≡ false)
  Reach-free lc s down r = elim (Bool-cases s.process.has_instance) [
    | inr free ↦ (s, here, free)
    | inl busy ↦
        let (i, in_it) = (Reach-Inv lc down r).held busy in
        let (n, runs, free) = leave s.process (s.pc i) in_it in
        let (t, reached, same, out) = RunsTo-Steps runs s s i here refl refl in
        (t, reached, ap (λ k. k.has_instance) same ∙ free)
  ]
