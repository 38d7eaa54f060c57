-- ===== src/Shell/SignIn.antt =====
-- notification-admin-ui/src/pages/login/LoginPage.tsx: the form that signs a user in.
use notification_platform.Base.{ℕ, String, Bool, true, false, ◌≡◌, refl, truthy}
use notification_platform.Api.Errors.{Thrown, get_error_message}
use notification_platform.Session.Provider.{Provider, LoginReply, login}
use notification_platform.Shell.Routes.{login_route, redirect}

pub record SignIn : Type 0 where
  pub email : String
  pub password : String
  pub error : String
  pub loading : Bool

unfoldable pub fresh_sign_in : SignIn
fresh_sign_in = record { email = ""; password = ""; error = ""; loading = false }

-- `submit` up to its `await`: what `login` is called with.
pub record Credentials : Type 0 where
  pub email : String
  pub password : String

unfoldable pub sign_in : SignIn → Credentials × SignIn
sign_in s =
    (record { email = s.email; password = s.password }, record s { loading = true; error = "" })

-- `err instanceof Error ? err.message : 'Login failed'`; `show` prints a number.
abbrev pub login_error : (ℕ → String) → Thrown → String
login_error show err = get_error_message show err "Login failed"

-- The end of `submit`: the reply changes the provider, an error the form.
unfoldable pub signed_in : LoginReply → SignIn × Provider → SignIn × Provider
unfolding login
signed_in res (s, p) = (record s { loading = false }, login res p)

unfoldable pub sign_in_failed : (ℕ → String) → Thrown → SignIn × Provider → SignIn × Provider
sign_in_failed show err (s, p) = (record s { error = login_error show err; loading = false }, p)

-- A reply with a token that is not empty takes the user from the login page to the start page; an
-- error leaves the session as it was and the texts of the form in place.
pub sign_in-ends :
    (show : ℕ → String) (res : LoginReply) (err : Thrown) (s : SignIn) (p : Provider)
    → truthy res.access_token ≡ true
    → let t = (sign_in s).1 in
      let good = signed_in res (t, p) in
      let bad = sign_in_failed show err (t, p) in
      (login_route good.1.token ≡ redirect "/")
      × (good.0.loading ≡ false)
      × (bad.1 ≡ p)
      × (bad.0 ≡ record s { error = login_error show err; loading = false })
unfolding sign_in signed_in sign_in_failed login login_route
sign_in-ends show res err s p h = (rw h refl, refl, refl, refl)
