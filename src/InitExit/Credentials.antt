-- ===== src/InitExit/Credentials.antt =====
-- `Authorizer` of libsane/src/init_exit.rs: the two buffers of the C library that receive a user name
-- and a password.
use libsane_rs.Common.{
  ℕ, ◌-◌, ◌^◌, List, [], ◌∷◌, some, length, ltb, leb, if◌then◌else◌, Outcome, ret, ◌>>=◌, Result,
  ok, err,
}
use libsane_rs.Common.Vec.{MaybeUninit, write_prefix}
use libsane_rs.Strings.Buffer.{SaneStr, to_bytes_with_nul}

pub data AuthFieldError : Type 0 where
  not_latin1 too_long : AuthFieldError

pub data AuthError : Type 0 where
  username password : AuthFieldError → AuthError

pub record Authorizer : Type 0 where
  pub username : List MaybeUninit
  pub password : List MaybeUninit

unfoldable pub max_username_len : Authorizer → ℕ
max_username_len a = length a.username - 1

unfoldable pub max_password_len : Authorizer → ℕ
max_password_len a = length a.password - 1

-- What a writer returns, and the buffer that it leaves.
abbrev pub Wrote : Type 0
Wrote = Result (Unit {0}) AuthFieldError × List MaybeUninit

-- `target_iter.next()` after the loop, for the NUL.
unfoldable pub write_nul : List MaybeUninit → Wrote
write_nul [] = (err too_long, [])
write_nul (nul ∷ rest) = (ok tt, some 0 ∷ rest)

abbrev behind : MaybeUninit → Wrote → Wrote
behind dest w = (w.0, dest ∷ w.1)

-- `write_str` on the code points of its source. The zip takes a place of the target before it asks
-- the source for a character, so at the end of the source it has taken one that it leaves as it is.
unfoldable pub write_str : List MaybeUninit → List ℕ → Wrote
unfolding write_nul
write_str [] source = write_nul []
write_str (dest ∷ target) [] = behind dest (write_nul target)
write_str (dest ∷ target) (ch ∷ source) =
    if ltb ch (2 ^ 8)
    then behind (some ch) (write_str target source)
    else (err not_latin1, dest ∷ target)

unfoldable pub write_str_latin1 : List MaybeUninit → SaneStr → Outcome Wrote
unfolding to_bytes_with_nul write_prefix
write_str_latin1 target source =
    if leb (length (to_bytes_with_nul source)) (length target)
    then (write_prefix target (to_bytes_with_nul source) >>= λ written. ret (ok tt, written))
    else ret (err too_long, target)

-- What a client gets, and the buffers that it leaves behind; `ok` stands for the token `AuthOk`.
abbrev pub Provided : Type 0
Provided = Result (Unit {0}) AuthError × Authorizer

unfoldable pub after_password : List MaybeUninit → Wrote → Provided
after_password user (ok u, pass) = (ok tt, record { username = user; password = pass })
after_password user (err e, pass) = (err (password e), record { username = user; password = pass })

after_username : List MaybeUninit → List ℕ → Wrote → Provided
unfolding after_password write_str
after_username pass source (ok u, user) = after_password user (write_str pass source)
after_username pass source (err e, user) =
    (err (username e), record { username = user; password = pass })

unfoldable pub provide_credentials : Authorizer → List ℕ → List ℕ → Provided
unfolding after_username write_str
provide_credentials a user pass = after_username a.password pass (write_str a.username user)

unfoldable pub after_username_latin1 : List MaybeUninit → SaneStr → Wrote → Outcome Provided
unfolding after_password write_str_latin1
after_username_latin1 pass source (ok u, user) = do
  w ← write_str_latin1 pass source
  ret (after_password user w)
after_username_latin1 pass source (err e, user) =
    ret (err (username e), record { username = user; password = pass })

unfoldable pub provide_credentials_latin1 : Authorizer → SaneStr → SaneStr → Outcome Provided
unfolding after_username_latin1 write_str_latin1
provide_credentials_latin1 a user pass = do
  w ← write_str_latin1 a.username user
  after_username_latin1 a.password pass w
