-- ===== src/InitExit/Threads.antt =====
-- `Sane::init` and the drop of a `Sane`, libsane/src/init_exit.rs, as the steps of threads that share
-- one process. Each step is one access to a static or one call of the C library, in the order of the
-- code; the accesses are taken in one order for all threads.
use mathlib.Core.Logic.{ite}
use native.Mathlib.Decide.{ℕ_discrete}
use libsane_rs.Common.{ℕ, ◌≡◌, true, false, Option, none, some, ok, err}
use libsane_rs.InitExit.Process.{CLibrary, Process}

-- Where a thread stands: outside of both functions; in `init` before it stores the handler, before
-- it calls `sane_init`, after that failed, and before it stores the flag; with the instance; and in
-- the drop before it stores the flag.
pub data Pc (H : Type 0) : Type 0 where
  idle : Pc H
  entered : Option H → Pc H
  ready refused cleared : Pc H
  live : ℕ → Pc H
  exited : Pc H

module _ {H L : Type 0} (c : CLibrary L) where
  pub data Move (m : Process H L) : Pc H → Process H L → Pc H → Type 0 where
    acquire :
        (a : Option H)
        → m.has_instance ≡ false
        → Move m idle (record m { has_instance = true }) (entered a)
    -- The assertion of `init` fails, and the thread unwinds.
    panics : m.has_instance ≡ true → Move m idle m idle
    store : (h : H) → Move m (entered (some h)) (record m { auth_handler = some h }) ready
    keep : Move m (entered none) m ready
    init_ok :
        (v : ℕ) (l : L)
        → c.sane_init m.library ≡ (ok v, l)
        → Move m ready (record m { library = l }) (live v)
    init_err :
        (s : ℕ) (l : L)
        → c.sane_init m.library ≡ (err s, l)
        → Move m ready (record m { library = l }) refused
    clear : Move m refused (record m { auth_handler = none }) cleared
    give_up : Move m cleared (record m { has_instance = false }) idle
    exit : (v : ℕ) → Move m (live v) (record m { library = c.sane_exit m.library }) exited
    release : Move m exited (record m { has_instance = false }) idle

pub record System (H L : Type 0) : Type 0 where
  pub process : Process H L
  pub pc : ℕ → Pc H

-- A family changed at one index.
abbrev pub update {ℓ} : {A : Type ℓ} → (ℕ → A) → ℕ → A → ℕ → A
update f i a j = ite (ℕ_discrete i j) a (f j)

-- A step of one thread, or an instance that is sent from one to another.
pub data Step {H L : Type 0} (c : CLibrary L) (s : System H L) : System H L → Type 0 where
  move :
      (i : ℕ) {m : Process H L} {p : Pc H}
      → Move c s.process (s.pc i) m p
      → Step c s (record { process = m; pc = update s.pc i p })
  send :
      (i j v : ℕ)
      → s.pc i ≡ live v
      → s.pc j ≡ idle
      → Step c s (record s { pc = update (update s.pc i idle) j (live v) })

-- The states of a process that starts with no instance, no handler and all threads outside.
pub data Reach {H L : Type 0} (c : CLibrary L) (l : L) : System H L → Type 0 where
  start : Reach c l (record {
    process = record { has_instance = false; auth_handler = none; library = l };
    pc = λ _. idle;
  })
  later : {s t : System H L} → Reach c l s → Step c s t → Reach c l t

-- The states that steps lead to from one.
pub data Steps {H L : Type 0} (c : CLibrary L) (s : System H L) : System H L → Type 0 where
  here : Steps c s s
  next : {t u : System H L} → Steps c s t → Step c t u → Steps c s u
