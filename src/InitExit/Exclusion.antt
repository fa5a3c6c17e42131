-- ===== src/InitExit/Exclusion.antt =====
-- `HAS_INSTANCE` of libsane/src/init_exit.rs over all interleavings of threads.
use mathlib.Core.Path.{fun_ext}
use libsane_rs.Common.{
  ℕ, ◌≡◌, inl, inr, refl, subst, sym, ◌∙◌, arith, Bool, true, false, none, ok, err, Bool-cases,
}
use libsane_rs.InitExit.Process.{CLibrary, Process}
use libsane_rs.InitExit.Threads.{
  Pc, idle, ready, live, Move, acquire, panics, store, keep, init_ok, init_err, clear, give_up,
  exit, release, System, Step, move, send, Reach, start, later, update,
}

-- What the C library documents: a successful `sane_init` brings it up, a failed one leaves it down,
-- and `sane_exit` takes it down.
pub record Lifecycle {L : Type 0} (c : CLibrary L) : Type 0 where
  pub up : L → Bool
  pub ok_up : (l l' : L) (v : ℕ) → c.sane_init l ≡ (ok v, l') → up l' ≡ true
  pub err_down : (l l' : L) (s : ℕ) → c.sane_init l ≡ (err s, l') → up l' ≡ false
  pub exit_down : (l : L) → up (c.sane_exit l) ≡ false

module _ {H : Type 0} where
  abbrev pub inside : Pc H → Bool
  inside idle = false
  inside _ = true

  abbrev pub is_live : Pc H → Bool
  is_live (live v) = true
  is_live _ = false

update-same {ℓ} :
    {A : Type ℓ} (f : ℕ → A) (i : ℕ) (a : A) → a ≡ f i → (j : ℕ) → f j ≡ update f i a j
update-same f i a e j = ground arith

module _ {H L : Type 0} {c : CLibrary L} (lc : Lifecycle c) where
  -- Only one thread is inside, and only while the flag is set; the library is up just while a thread
  -- has the instance.
  pub record Inv (m : Process H L) (pc : ℕ → Pc H) : Type 0 where
    pub free : m.has_instance ≡ false → (i : ℕ) → inside (pc i) ≡ false
    pub down : m.has_instance ≡ false → lc.up m.library ≡ false
    pub held : m.has_instance ≡ true → (i : ℕ) × (inside (pc i) ≡ true)
    pub unique : (i j : ℕ) → inside (pc i) ≡ true → inside (pc j) ≡ true → i ≡ j
    pub agrees : (i : ℕ) → inside (pc i) ≡ true → lc.up m.library ≡ is_live (pc i)

  -- The four ways in which a move changes what the invariant speaks of.
  data Kind (m : Process H L) (p : Pc H) (m' : Process H L) (p' : Pc H) : Type 0 where
    stays_out : m' ≡ m → inside p ≡ false → p' ≡ p → Kind m p m' p'
    enters :
        m.has_instance ≡ false
        → m'.has_instance ≡ true
        → lc.up m'.library ≡ is_live p'
        → inside p' ≡ true
        → Kind m p m' p'
    works :
        inside p ≡ true
        → inside p' ≡ true
        → m'.has_instance ≡ m.has_instance
        → lc.up m'.library ≡ is_live p'
        → Kind m p m' p'
    leaves :
        inside p ≡ true
        → inside p' ≡ false
        → m'.has_instance ≡ false
        → lc.up m'.library ≡ false
        → Kind m p m' p'

  kind :
      {m m' : Process H L} {p p' : Pc H}
      → Move c m p m' p'
      → (m.has_instance ≡ false → lc.up m.library ≡ false)
      → (inside p ≡ true → lc.up m.library ≡ is_live p)
      → Kind m p m' p'
  kind (acquire a h) down up = enters h refl (down h) refl
  kind (panics h) down up = stays_out refl refl refl
  kind (store h) down up = works refl refl refl (up refl)
  kind keep down up = works refl refl refl (up refl)
  kind (init_ok v l e) down up = works refl refl refl (lc.ok_up _ l v e)
  kind (init_err s l e) down up = works refl refl refl (lc.err_down _ l s e)
  kind clear down up = works refl refl refl (up refl)
  kind give_up down up = leaves refl refl refl (up refl)
  kind (exit v) down up = works refl refl refl (lc.exit_down _)
  kind release down up = leaves refl refl refl (up refl)

  Kind-Inv :
      {m m' : Process H L} {pc : ℕ → Pc H} (i : ℕ) (p' : Pc H)
      → Inv m pc
      → Kind m (pc i) m' p'
      → Inv m' (update pc i p')
  Kind-Inv {m} {m'} {pc} i p' inv (stays_out same out p_same) =
      subst (λ q. Inv m' q) (fun_ext (update-same pc i p' p_same))
        (subst (λ k. Inv k pc) (sym same) inv)
  Kind-Inv {m} {m'} {pc} i p' inv (enters was now up ins) = record {
    free = λ h j. cc;
    down = λ h. cc;
    held = λ h. (i, ground arith);
    unique = λ j k a b. ground (arith, inv.free was j, inv.free was k);
    agrees = λ j a. ground (arith, inv.free was j);
  }
  Kind-Inv {m} {m'} {pc} i p' inv (works was ins same up) = record {
    free = λ h j. ground (arith, inv.free (sym same ∙ h) i);
    down = λ h. ground (arith, inv.free (sym same ∙ h) i);
    held = λ h. (i, ground arith);
    unique = λ j k a b. ground (arith, inv.unique j i, inv.unique i k, inv.unique j k);
    agrees = λ j a. ground (arith, inv.unique j i);
  }
  Kind-Inv {m} {m'} {pc} i p' inv (leaves was out now down) = record {
    free = λ h j. elim (Bool-cases (inside (pc j))) [
      | inl a ↦ ground (arith, inv.unique j i)
      | inr a ↦ ground arith
    ];
    down = λ h. down;
    held = λ h. cc;
    unique = λ j k a b. ground (arith, inv.unique j i, inv.unique i k, inv.unique j k);
    agrees = λ j a. ground (arith, inv.unique j i);
  }

  Move-Inv :
      {m m' : Process H L} {pc : ℕ → Pc H} (i : ℕ) {p' : Pc H}
      → Inv m pc
      → Move c m (pc i) m' p'
      → Inv m' (update pc i p')
  Move-Inv i {p'} inv mv = Kind-Inv i p' inv (kind mv inv.down (inv.agrees i))

  -- An instance that is sent to another thread.
  send-Inv :
      {m : Process H L} {pc : ℕ → Pc H} (i j v : ℕ)
      → Inv m pc
      → pc i ≡ live v
      → pc j ≡ idle
      → Inv m (update (update pc i idle) j (live v))
  send-Inv {m} {pc} i j v inv here there = record {
    free = λ h k. ground (arith, inv.free h i);
    down = inv.down;
    held = λ h. (j, ground arith);
    unique = λ k l a b. ground (arith, inv.unique k i, inv.unique l i, inv.unique i k);
    agrees = λ k a. ground (arith, inv.agrees i, inv.unique k i);
  }

  Step-Inv : {s t : System H L} → Step c s t → Inv s.process s.pc → Inv t.process t.pc
  Step-Inv (move i mv) inv = Move-Inv i inv mv
  Step-Inv (send i j v here there) inv = send-Inv i j v inv here there

  start-Inv :
      (l : L)
      → lc.up l ≡ false
      → Inv (record { has_instance = false; auth_handler = none; library = l }) (λ _. idle)
  start-Inv l down = record {
    free = λ h i. refl;
    down = λ h. down;
    held = λ h. cc;
    unique = λ i j a b. cc;
    agrees = λ i a. cc;
  }

  pub Reach-Inv : {l : L} {s : System H L} → lc.up l ≡ false → Reach c l s → Inv s.process s.pc
  Reach-Inv {l} down start = start-Inv l down
  Reach-Inv down (later r st) = Step-Inv st (Reach-Inv down r)

  -- In every state that threads reach from a process without an instance, by calls of `init`, drops
  -- of the instance and sending it to another thread in any interleaving: two threads are never
  -- inside of `init` or the drop or in possession of the instance at once; where a thread is about to
  -- call `sane_init` the library is down, and where one has the instance, to drop it, it is up.
  pub Reach-inside :
      {l : L} {s : System H L}
      → lc.up l ≡ false
      → Reach c l s
      → ((i j : ℕ) → inside (s.pc i) ≡ true → inside (s.pc j) ≡ true → i ≡ j)
        × ((i : ℕ) → s.pc i ≡ ready → lc.up s.process.library ≡ false)
        × ((i v : ℕ) → s.pc i ≡ live v → lc.up s.process.library ≡ true)
  Reach-inside {s} down r =
      let inv = Reach-Inv down r in
      (inv.unique, λ i e. ground (arith, inv.agrees i), λ i v e. ground (arith, inv.agrees i))
