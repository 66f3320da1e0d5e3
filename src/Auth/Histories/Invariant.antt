-- ===== src/Auth/Histories/Invariant.antt =====
-- What holds in every state that requests reach.
use nestjs_app.Prelude.{arith}
use nestjs_app.Db.{Db, Documented}
use nestjs_app.Users.Create.Emails.{HasUniqueEmails}
use nestjs_app.Auth.Session.{Providers}
use nestjs_app.Auth.Refresh.Families.{HasOneLivePerFamily, refresh-unrevoked_le}
use nestjs_app.Auth.Credentials.Signup.{register-HasUniqueEmails}
use nestjs_app.Auth.Histories.{
  Reaches, start, login_step, register_step, refresh_step, logout_step, forgot_step, reset_step,
}
use nestjs_app.Auth.Histories.Accounts.{
  login-users, logout-users, refresh-users, reset-HasUniqueEmails,
}
use nestjs_app.Auth.Histories.Sessions.{
  login-unrevoked_le, register-unrevoked_le, logout-unrevoked_le, forgot-kept, reset-unrevoked_le,
}

module _ (p : Providers) (documented : Documented p.orm) where
  -- Whatever requests are made, in whatever order, and whatever other requests run while a new
  -- account's password is hashed: no two live accounts share an email, if none did at the start.
  pub Reaches-HasUniqueEmails :
      (db db' : Db) → Reaches p db db' → HasUniqueEmails db → HasUniqueEmails db'
  Reaches-HasUniqueEmails db _ start h = h
  Reaches-HasUniqueEmails db _ (login_step dto meta draw db' r _) h = λ email.
      rw (login-users p documented dto meta draw db') (Reaches-HasUniqueEmails db db' r h email)
  Reaches-HasUniqueEmails db _ (register_step dto meta draw session_draw db' db'' r r' _) h =
      register-HasUniqueEmails p documented dto meta (λ _. db'') draw session_draw db'
        (Reaches-HasUniqueEmails db db' r h) (Reaches-HasUniqueEmails db db'' r' h)
  Reaches-HasUniqueEmails db _ (refresh_step presented meta draw db' r) h = λ email.
      rw (refresh-users p documented presented meta draw db')
        (Reaches-HasUniqueEmails db db' r h email)
  Reaches-HasUniqueEmails db _ (logout_step presented draw db' r) h = λ email.
      rw (logout-users p documented presented draw db') (Reaches-HasUniqueEmails db db' r h email)
  Reaches-HasUniqueEmails db _ (forgot_step email' meta draw db' r) h = λ email.
      rw ((forgot-kept p documented email' meta draw db').1)
        (Reaches-HasUniqueEmails db db' r h email)
  Reaches-HasUniqueEmails db _ (reset_step token password draw db' r) h =
      reset-HasUniqueEmails p documented token password draw db'
        (Reaches-HasUniqueEmails db db' r h)

  -- Whatever requests are made, in whatever order: every family of sessions has at most one token
  -- that is not revoked, if that was so at the start and logins draw new family ids.
  pub Reaches-HasOneLivePerFamily :
      (db db' : Db) → Reaches p db db' → HasOneLivePerFamily db → HasOneLivePerFamily db'
  Reaches-HasOneLivePerFamily db _ start h = h
  Reaches-HasOneLivePerFamily db _ (login_step dto meta draw db' r new) h = λ family.
      login-unrevoked_le p documented dto meta draw db' family new
        (Reaches-HasOneLivePerFamily db db' r h family)
  Reaches-HasOneLivePerFamily db _ (register_step dto meta draw session_draw db' db'' r r' new) h =
      λ family.
        register-unrevoked_le p documented dto meta draw session_draw db' db'' family new
          (Reaches-HasOneLivePerFamily db db' r h family)
          (Reaches-HasOneLivePerFamily db db'' r' h family)
  Reaches-HasOneLivePerFamily db _ (refresh_step presented meta draw db' r) h = λ family.
      let before = Reaches-HasOneLivePerFamily db db' r h family in
      omega (arith, refresh-unrevoked_le p documented presented meta draw db' family)
  Reaches-HasOneLivePerFamily db _ (logout_step presented draw db' r) h = λ family.
      let before = Reaches-HasOneLivePerFamily db db' r h family in
      omega (arith, logout-unrevoked_le p documented presented draw db' family)
  Reaches-HasOneLivePerFamily db _ (forgot_step email meta draw db' r) h = λ family.
      rw ((forgot-kept p documented email meta draw db').0)
        (Reaches-HasOneLivePerFamily db db' r h family)
  Reaches-HasOneLivePerFamily db _ (reset_step token password draw db' r) h = λ family.
      let before = Reaches-HasOneLivePerFamily db db' r h family in
      omega (arith, reset-unrevoked_le p documented token password draw db' family)
