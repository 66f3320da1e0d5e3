-- ===== src/Mail/Service.antt =====
-- src/modules/auth/mail/mail.service.ts. The queue of BullMQ and the SMTP check are parameters; a
-- line of the log is left out, but for the link that the console driver prints.
pub mod Delivery
use Prim.Native.String
use nestjs_app.Prelude.{
  ◌≡◌, refl, String, Bool, true, false, Option, none, some, List, [], ◌∷◌, ◌++◌, str_eq,
  if◌then◌else◌,
}
use nestjs_app.Result.{Exec, Result, ok, err, Exception}
use nestjs_app.Auth.Session.{Crypto}

pub data MailDriver : Type 0 where
  console smtp : MailDriver

pub record PasswordResetMailJob : Type 0 where
  pub email : String
  pub token : String

-- `queue.add(name, data, { jobId })`, which may fail; and the removal of a job, once it has
-- completed or the time for which a failed one is kept is over.
pub record Queue : Type 1 where
  pub State : Type 0
  pub add : (job_id : String) → PasswordResetMailJob → Exec State (Unit {0})
  pub remove : (job_id : String) → State → State

pub record MailSettings : Type 0 where
  pub driver : MailDriver
  pub frontend_url : String

abbrev reset_url_path : String
reset_url_path = "/reset-password"

-- The link that the console driver logs.
unfoldable pub console_url : String → String → String
console_url frontend_url token =
    String.◌++◌ frontend_url (String.◌++◌ reset_url_path (String.◌++◌ "?token=" token))

unfoldable pub job_id_of : Crypto → String → String
job_id_of crypto token = String.◌++◌ "pwreset-" (crypto.hash_token token)

-- The check at boot: `verified` is the answer of `transporter.verify()`, `none` without one.
unfoldable pub on_module_init :
    (is_production : Bool) → (verified : Option (Result (Unit {0}))) → Result (Unit {0})
on_module_init is_production none = ok tt
on_module_init is_production (some (ok t)) = ok tt
on_module_init is_production (some (err e)) = if is_production then err e else ok tt

module _ (crypto : Crypto) (settings : MailSettings) (queue : Queue) where
  -- The links that were logged, and the queue.
  pub record Outbox : Type 0 where
    pub logged : List String
    pub jobs : queue.State

  -- `.then(() => undefined).catch(…)`
  abbrev pub settled : Result (Unit {0}) × queue.State → List String → Result (Unit {0}) × Outbox
  settled (answer, jobs) logged = (ok tt, record { logged = logged; jobs = jobs })

  abbrev pub send_by : MailDriver → (email token : String) → Exec Outbox (Unit {0})
  send_by console email token box =
      (ok tt, record box { logged = box.logged ++ console_url settings.frontend_url token ∷ [] })
  send_by smtp email token box =
      settled
        (queue.add (job_id_of crypto token) (record { email = email; token = token }) box.jobs)
        box.logged

  unfoldable pub send_password_reset : (email token : String) → Exec Outbox (Unit {0})
  unfolding console_url job_id_of
  send_password_reset email token = send_by settings.driver email token
