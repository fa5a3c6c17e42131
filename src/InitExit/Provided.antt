-- ===== src/InitExit/Provided.antt =====
-- `Authorizer::provide_credentials_latin1` and the life of the client's handler,
-- libsane/src/init_exit.rs.
use libsane_rs.Common.{
  ℕ, ◌<◌, ◌≤◌, ◌≡◌, ◌⊎◌, inl, inr, refl, true, false, Option, none, some, length, ret, ok, err,
}
use libsane_rs.Strings.Buffer.{SaneStr}
use libsane_rs.Strings.Content.{Holds, NonNul}
use libsane_rs.InitExit.Credentials.{
  username, password, Authorizer, too_long, provide_credentials_latin1, after_username_latin1,
  after_password,
}
use libsane_rs.InitExit.Fields.{write_str_latin1-Holds}
use libsane_rs.InitExit.Process.{
  CLibrary, Process, initialized, init, set_handler, after_init, drop_instance,
}

-- `provide_credentials_latin1` of strings without inner NUL: where each fits its buffer with its NUL,
-- the token is returned and the buffers hold the two strings; where the name does not fit, both
-- buffers are as they were; where only the password does not, the name is written and the password's
-- buffer is as it was. The error says which one is too long.
pub provide_credentials_latin1-Holds :
    (a : Authorizer) (user pass : SaneStr)
    → NonNul user.bytes
    → NonNul pass.bytes
    → ((length user.bytes < length a.username)
        × (length pass.bytes < length a.password)
        × (b : Authorizer) × (provide_credentials_latin1 a user pass ≡ ret (ok tt, b))
        × Holds b.username user.bytes
        × Holds b.password pass.bytes)
      ⊎ (((length a.username ≤ length user.bytes)
            × (provide_credentials_latin1 a user pass ≡ ret (err (username too_long), a)))
          ⊎ ((length user.bytes < length a.username)
              × (length a.password ≤ length pass.bytes)
              × (b : Authorizer) × (provide_credentials_latin1 a user pass
                  ≡ ret (err (password too_long), b))
              × Holds b.username user.bytes
              × (b.password ≡ a.password)))
unfolding provide_credentials_latin1 after_username_latin1 after_password
provide_credentials_latin1-Holds a user pass h k = elim (write_str_latin1-Holds a.username user h) [
  | inr (long, e) ↦ inr (inl (long, rw e))
  | inl (room, name, e, held, same) ↦ elim (write_str_latin1-Holds a.password pass k) [
    | inl (space, word, f, kept, size) ↦
        inl (room, space, record { username = name; password = word }, rw (e, f), held, kept)
    | inr (long, f) ↦
        inr (
          inr
            (room, long, record { username = name; password = a.password }, rw (e, f), held, refl))
  ]
]

module _ {H L : Type 0} (c : CLibrary L) where
  -- A call of `init` while the flag is free, of a library that comes up.
  init-up :
      (a : Option H) (s : Process H L) (v : ℕ) (l : L)
      → s.has_instance ≡ false
      → c.sane_init s.library ≡ (ok v, l)
      → init c a s ≡ (
        initialized v,
        record { has_instance = true; auth_handler = (set_handler a s).auth_handler; library = l },
      )
  unfolding init set_handler after_init
  init-up none s v l free e = simp (free, e)
  init-up (some h) s v l free e = simp (free, e)

  -- After `init` with a handler, the drop of the instance and `init` with none, where both calls find
  -- a library that comes up, the handler of the first is still there.
  pub init-drop_instance :
      (h : H) (s : Process H L) (v w : ℕ) (l k : L)
      → s.has_instance ≡ false
      → c.sane_init s.library ≡ (ok v, l)
      → c.sane_init (c.sane_exit l) ≡ (ok w, k)
      → init c none (drop_instance c ((init c (some h) s).1))
        ≡ (initialized w, record { has_instance = true; auth_handler = some h; library = k })
  unfolding drop_instance set_handler
  init-drop_instance h s v w l k free e f = rw (init-up (some h) s v l free e) (
      init-up none (record { has_instance = false; auth_handler = some h; library = c.sane_exit l })
        w k refl f)
