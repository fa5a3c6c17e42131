-- ===== src/InitExit/Tests.antt =====
-- Small buffers, credentials and runs of threads, and the theorems about them at such values.
use libsane_rs.Common.{
  ℕ, ◌+◌, ◌<◌, ◌≤◌, ◌≡◌, ◌⊎◌, refl, arith, Bool, true, false, none, some, List, [], ◌∷◌, length,
  replicate, ret, ub, Result, ok, err,
}
use libsane_rs.Common.Vec.{MaybeUninit}
use libsane_rs.Strings.Buffer.{SaneStr, count_from}
use libsane_rs.Strings.Content.{Holds}
use libsane_rs.InitExit.Credentials.{
  Authorizer, username, password, too_long, write_str, provide_credentials_latin1,
}
use libsane_rs.InitExit.Fields.{Written, write_str-Written, write_str-count_from}
use libsane_rs.InitExit.Provided.{provide_credentials_latin1-Holds, init-drop_instance}
use libsane_rs.InitExit.Process.{CLibrary, Process, initialized, init, drop_instance}
use libsane_rs.InitExit.Threads.{
  idle, entered, ready, live, acquire, store, init_ok, System, Reach, Steps, start, later, move,
  update,
}
use libsane_rs.InitExit.Exclusion.{Lifecycle, inside, Reach-inside}
use libsane_rs.InitExit.Progress.{Reach-free}

-- Six places, none of them initialised, for a name of two characters.
abbrev field : List MaybeUninit
field = replicate 6 none

abbrev name : List ℕ
name = 97 ∷ 98 ∷ []

write_str-Written_example :
    ((length name + 1 < length field)
      × (left : List MaybeUninit) × (write_str field name ≡ (ok tt, left))
      × Written field name left)
    ⊎ ((length field ≤ length name + 1) × ((write_str field name).0 ≡ err too_long))
write_str-Written_example = write_str-Written field name (omega arith, (omega arith, tt))

write_str-count_from_example :
    (left : List MaybeUninit) × (write_str (replicate 6 none) name ≡ (ok tt, left))
    × (count_from 0 left ≡ ub)
write_str-count_from_example =
    write_str-count_from 6 name (omega arith, (omega arith, tt)) (omega arith, (omega arith, tt))
      (omega arith)

abbrev latin1_name : SaneStr
latin1_name = record { bytes = name }

-- The buffers of a request, of six and three places.
abbrev request : Authorizer
request = record { username = field; password = replicate 3 none }

provide_credentials_latin1-Holds_example :
    ((length latin1_name.bytes < length request.username)
      × (length latin1_name.bytes < length request.password)
      × (b : Authorizer) × (provide_credentials_latin1 request latin1_name latin1_name
          ≡ ret (ok tt, b))
      × Holds b.username latin1_name.bytes
      × Holds b.password latin1_name.bytes)
    ⊎ (((length request.username ≤ length latin1_name.bytes)
          × (provide_credentials_latin1 request latin1_name latin1_name
              ≡ ret (err (username too_long), request)))
        ⊎ ((length latin1_name.bytes < length request.username)
            × (length request.password ≤ length latin1_name.bytes)
            × (b : Authorizer) × (provide_credentials_latin1 request latin1_name latin1_name
                ≡ ret (err (password too_long), b))
            × Holds b.username latin1_name.bytes
            × (b.password ≡ request.password)))
provide_credentials_latin1-Holds_example =
    provide_credentials_latin1-Holds request latin1_name latin1_name
      (omega arith, (omega arith, tt)) (omega arith, (omega arith, tt))

-- A library that is up or down, and always comes up with version 1.
abbrev library : CLibrary Bool
library = record { sane_init = λ l. (ok 1, true); sane_exit = λ l. false }

-- What a call of `sane_init` returns, with the state that it leaves.
abbrev Init : Type 0
Init = Result ℕ ℕ × Bool

result_of : (l : Bool) (v : ℕ) → ◌≡◌ {A = Init} (ok 1, true) (ok v, l) → l ≡ true
result_of l v e = cc

never_fails : (l : Bool) (s : ℕ) → ◌≡◌ {A = Init} (ok 1, true) (err s, l) → l ≡ false
never_fails l s e = cc

abbrev library_up : Lifecycle library
library_up = record {
  up = λ l. l;
  ok_up = λ l l' v e. result_of l' v e;
  err_down = λ l l' s e. never_fails l' s e;
  exit_down = λ l. refl;
}

abbrev process_start : Process ℕ Bool
process_start = record { has_instance = false; auth_handler = none; library = false }

-- Thread 2 initialises the library with the handler 5.
abbrev acquired : System ℕ Bool
acquired = record {
  process = record process_start { has_instance = true };
  pc = update (λ _. idle) 2 (entered (some 5));
}

abbrev stored : System ℕ Bool
stored = record {
  process = record acquired.process { auth_handler = some 5 };
  pc = update acquired.pc 2 ready;
}

abbrev running : System ℕ Bool
running = record {
  process = record stored.process { library = true };
  pc = update stored.pc 2 (live 1);
}

running-Reach : Reach library false running
unfolding native.Mathlib.Decide.ℕ_discrete
running-Reach =
    later (later (later start (move 2 (acquire (some 5) refl))) (move 2 (store 5)))
      (move 2 (init_ok 1 true refl))

Reach-inside_example :
    ((i j : ℕ) → inside (running.pc i) ≡ true → inside (running.pc j) ≡ true → i ≡ j)
    × ((i : ℕ) → running.pc i ≡ ready → running.process.library ≡ false)
    × ((i v : ℕ) → running.pc i ≡ live v → running.process.library ≡ true)
Reach-inside_example = Reach-inside library_up refl running-Reach

Reach-free_example :
    (t : System ℕ Bool) × Steps library running t × (t.process.has_instance ≡ false)
Reach-free_example = Reach-free library library_up running refl running-Reach

init-drop_instance_example :
    init library none (drop_instance library ((init library (some 5) process_start).1))
    ≡ (initialized 1, record { has_instance = true; auth_handler = some 5; library = true })
init-drop_instance_example = init-drop_instance library 5 process_start 1 1 true true refl refl refl
