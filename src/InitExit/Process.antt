-- ===== src/InitExit/Process.antt =====
-- `Sane::init`, the drop of a `Sane` and `authorize_callback` of libsane/src/init_exit.rs, as
-- functions on the state of a process. `sane_init` and `sane_exit` of the C library and the client's
-- `AuthorizationCallback` are parameters.
use libsane_rs.Common.{
  ℕ, Bool, true, false, Option, none, some, List, [], ◌∷◌, if◌then◌else◌, Outcome, ret, ub, ◌>>=◌,
  Result, ok, err,
}
use libsane_rs.Common.Vec.{MaybeUninit}
use libsane_rs.Strings.Buffer.{SaneStr}
use libsane_rs.InitExit.Credentials.{Authorizer}

-- The C library: `sane_init` returns a version or a status code.
pub record CLibrary (L : Type 0) : Type 0 where
  pub sane_init : L → Result ℕ ℕ × L
  pub sane_exit : L → L

-- The statics `HAS_INSTANCE` and `STATIC_SYNC_DATA.auth_handler`, and the state of the C library.
pub record Process (H : Type 0) (L : Type 0) : Type 0 where
  pub has_instance : Bool
  pub auth_handler : Option H
  pub library : L

-- How a call of `init` ends: with the instance and a version, with an error, or in its assertion.
pub data InitResult : Type 0 where
  initialized : ℕ → InitResult
  failed : ℕ → InitResult
  already_initialized : InitResult

-- `username.write(0)`.
unfoldable pub write_first : List MaybeUninit → Outcome (List MaybeUninit)
write_first [] = ub
write_first (b ∷ rest) = ret (some 0 ∷ rest)

module _ {H L : Type 0} where
  unfoldable pub set_handler : Option H → Process H L → Process H L
  set_handler none s = s
  set_handler (some h) s = record s { auth_handler = some h }

  -- What follows the call of `sane_init`.
  unfoldable pub after_init : Result ℕ ℕ → Process H L → InitResult × Process H L
  after_init (ok version) s = (initialized version, s)
  after_init (err status) s =
      (failed status, record s { auth_handler = none; has_instance = false })

  unfoldable pub init : CLibrary L → Option H → Process H L → InitResult × Process H L
  unfolding set_handler after_init
  init c authorize s =
      if s.has_instance
      then (already_initialized, s)
      else (let t = set_handler authorize (record s { has_instance = true }) in
          after_init ((c.sane_init t.library).0) (record t { library = (c.sane_init t.library).1 }))

  -- The drop of the instance.
  unfoldable pub drop_instance : CLibrary L → Process H L → Process H L
  drop_instance c s = record s { library = c.sane_exit s.library; has_instance = false }

  callback_by :
      (H → SaneStr → Authorizer → H × Authorizer)
      → SaneStr
      → Authorizer
      → Process H L
      → Option H
      → Outcome (Authorizer × Process H L)
  unfolding write_first
  callback_by authorize resource a s none = do
    username ← write_first a.username
    password ← write_first a.password
    ret (record { username = username; password = password }, s)
  callback_by authorize resource a s (some cb) =
      let r = authorize cb resource a in ret (r.1, record s { auth_handler = some r.0 })

  unfoldable pub authorize_callback :
      (H → SaneStr → Authorizer → H × Authorizer)
      → SaneStr
      → Authorizer
      → Process H L
      → Outcome (Authorizer × Process H L)
  unfolding callback_by
  authorize_callback authorize resource a s = callback_by authorize resource a s s.auth_handler
