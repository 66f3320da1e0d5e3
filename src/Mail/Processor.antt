-- ===== src/Mail/Processor.antt =====
-- src/modules/auth/mail/mail.processor.ts and mail-queue.status.ts, with the alerts of
-- src/shared/alerting/alerting.service.ts. The transporter is a parameter; BullMQ runs a job's
-- attempts one after the other and reports each that fails.
pub mod Attempts
use Prim.Native.String
use nestjs_app.Prelude.{
  ℕ, String, Bool, true, false, not, Option, none, some, List, [], ◌∷◌, ◌++◌, leb, str_eq,
  if◌then◌else◌,
}
use nestjs_app.Mail.Template.{
  EmailContent, PasswordResetEmailInput, Texts, build_password_reset_email,
}
use nestjs_app.Mail.Service.{PasswordResetMailJob}

-- An `Error`, by its message; or nothing.
pub data Outcome : Type 0 where
  done : Outcome
  error : String → Outcome

-- The data of a job; `unknown` has another `kind`.
pub data MailJob : Type 0 where
  password_reset : PasswordResetMailJob → MailJob
  unknown : (kind : String) → MailJob

pub record Job : Type 0 where
  pub id : Option String
  pub job_data : MailJob
  pub attempts : Option ℕ
  pub attempts_made : ℕ

pub record Mail : Type 0 where
  pub from : Option String
  pub to : String
  pub content : EmailContent

pub record Settings : Type 0 where
  pub mail_from : Option String
  pub frontend_url : String
  pub reset_token_ttl : String
  pub webhook_url : String

pub record PermanentFailure : Type 0 where
  pub reason : String
  pub at : ℕ

-- What the processor reports to: the status of the queue, and the alerts that are sent.
pub record Reports : Type 0 where
  pub last_permanent_failure : Option PermanentFailure
  pub alerts : List String

unfoldable pub mark_permanent_failure : (reason : String) → (now : ℕ) → Reports → Reports
mark_permanent_failure reason now reports = record reports {
  last_permanent_failure = some (record { reason = reason; at = now });
}

-- Without a webhook an alert is only logged; what becomes of the request is only logged too.
unfoldable pub notify : (webhook_url text : String) → Reports → Reports
notify webhook_url text reports =
    if str_eq webhook_url ""
    then reports
    else record reports { alerts = reports.alerts ++ text ∷ [] }

abbrev pub recipient_of : Option Job → String
recipient_of none = "unknown"
recipient_of (some job) = recipient_of_data job.job_data
  where
    recipient_of_data : MailJob → String
    recipient_of_data (password_reset job_data) = job_data.email
    recipient_of_data (unknown kind) = "unknown"

-- `job.opts.attempts ?? 1`
abbrev pub max_attempts : Option ℕ → ℕ
max_attempts none = 1
max_attempts (some n) = n

unfoldable pub is_final_failure : Option Job → Bool
is_final_failure none = true
is_final_failure (some job) = leb (max_attempts job.attempts) job.attempts_made

abbrev pub alert_text : (reason recipient : String) → String
alert_text reason recipient =
    String.◌++◌ ":rotating_light: Password-reset email permanently failed after all retries (" (
      String.◌++◌ reason
        (String.◌++◌ "). Recipient: " (String.◌++◌ recipient ". Check /health and SMTP config.")))

-- `error.message || String(error)`; the text of an error without a message is "Error".
abbrev pub reason_of : String → String
reason_of message = if str_eq message "" then "Error" else message

unfoldable pub handle_failure :
    (webhook_url : String) → Option Job → (message : String) → (now : ℕ) → Reports → Reports
unfolding is_final_failure mark_permanent_failure notify
handle_failure webhook_url job message now reports =
    if not (is_final_failure job)
    then reports
    else notify webhook_url (alert_text (reason_of message) (recipient_of job))
        (mark_permanent_failure (reason_of message) now reports)

module _ (texts : Texts) (settings : Settings) (transporter : Option (Mail → Outcome)) where
  abbrev send_content : (Mail → Outcome) → String → Option EmailContent → Outcome
  send_content send_mail to none = error "Invalid duration format"
  send_content send_mail to (some content) =
      send_mail (record { from = settings.mail_from; to = to; content = content })

  abbrev send_with : Option (Mail → Outcome) → PasswordResetMailJob → Outcome
  send_with none job_data = error "SMTP transporter unavailable but smtp job dequeued"
  send_with (some send_mail) job_data = send_content send_mail job_data.email (
      build_password_reset_email texts (record {
        frontend_url = settings.frontend_url;
        reset_token = job_data.token;
        reset_token_ttl = settings.reset_token_ttl;
      }))

  unfoldable pub send_password_reset_mail : PasswordResetMailJob → Outcome
  unfolding build_password_reset_email
  send_password_reset_mail job_data = send_with transporter job_data

  unfoldable pub process : MailJob → Outcome
  unfolding send_password_reset_mail
  process (password_reset job_data) = send_password_reset_mail job_data
  process (unknown kind) = error (String.◌++◌ "Unknown mail job kind: " kind)
