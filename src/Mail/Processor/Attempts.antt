-- ===== src/Mail/Processor/Attempts.antt =====
-- A job from its first attempt to its last: what is reported of it.
use nestjs_app.Prelude.{
  ℕ, suc, ◌+◌, ◌≤◌, ◌<◌, ◌≡◌, refl, ap, ◌∙◌, String, some, List, [], ◌∷◌, ◌++◌, arith, str_eq,
  if◌then◌else◌, length,
}
use nestjs_app.Mail.Processor.{
  Job, Reports, handle_failure, alert_text, reason_of, recipient_of, max_attempts,
}

-- An attempt that failed.
pub record Failure : Type 0 where
  pub message : String
  pub at : ℕ

abbrev pub attempted : Job → Job
attempted job = record job { attempts_made = suc job.attempts_made }

-- BullMQ counts each attempt that fails, and then reports it.
abbrev pub report_all : (webhook_url : String) → Job → List Failure → Reports → Reports
report_all webhook_url job [] reports = reports
report_all webhook_url job (f ∷ fs) reports =
    report_all webhook_url (attempted job) fs
      (handle_failure webhook_url (some (attempted job)) f.message f.at reports)

retried :
    (webhook_url : String) (job : Job) (f : Failure) (reports : Reports)
    → job.attempts_made < max_attempts job.attempts
    → handle_failure webhook_url (some job) f.message f.at reports ≡ reports
unfolding handle_failure
retried webhook_url job f reports h = ground arith

pub retries_silent :
    (webhook_url : String) (fs : List Failure) (job : Job) (reports : Reports)
    → job.attempts_made + length fs < max_attempts job.attempts
    → report_all webhook_url job fs reports ≡ reports
retries_silent webhook_url [] job reports h = refl
retries_silent webhook_url (f ∷ fs) job reports h =
    rw (retried webhook_url (attempted job) f reports (omega arith))
      (retries_silent webhook_url fs (attempted job) reports (omega arith))

-- The alert of a job that is given up.
abbrev pub given_up : (webhook_url : String) → Job → Failure → Reports → Reports
given_up webhook_url job last reports = record {
  last_permanent_failure = some (record { reason = reason_of last.message; at = last.at });
  alerts =
      if str_eq webhook_url ""
      then reports.alerts
      else reports.alerts ++ alert_text (reason_of last.message) (recipient_of (some job)) ∷ [];
}

given_up_last :
    (webhook_url : String) (job : Job) (last : Failure) (reports : Reports)
    → max_attempts job.attempts ≤ job.attempts_made
    → handle_failure webhook_url (some job) last.message last.at reports
      ≡ given_up webhook_url job last reports
unfolding handle_failure
given_up_last webhook_url job last reports h = ground arith

-- A job that may have `n` attempts and fails at each: the first `n - 1` failures report nothing, and
-- the last one marks the queue with its reason and sends one alert, if a webhook is configured.
pub report_all-given_up :
    (webhook_url : String) (fs : List Failure) (last : Failure) (job : Job) (reports : Reports)
    → job.attempts_made + suc (length fs) ≡ max_attempts job.attempts
    → report_all webhook_url job (fs ++ last ∷ []) reports ≡ given_up webhook_url job last reports
report_all-given_up webhook_url [] last job reports h =
    given_up_last webhook_url (attempted job) last reports (omega arith)
report_all-given_up webhook_url (f ∷ fs) last job reports h =
    ap (report_all webhook_url (attempted job) (fs ++ last ∷ []))
      (retried webhook_url (attempted job) f reports (omega arith))
    ∙ report_all-given_up webhook_url fs last (attempted job) reports (omega arith)
