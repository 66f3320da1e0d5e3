-- ===== src/Mail/Tests.antt =====
-- The theorems on mail at concrete inputs.
use nestjs_app.Prelude.{
  ◌≡◌, refl, String, false, List, Option, none, some, [], ◌∷◌, str_eq, eq_refl, if◌then◌else◌,
}
use nestjs_app.Result.{ok}
use nestjs_app.Auth.Samples.{crypto}
use nestjs_app.Mail.Template.{ttl_minutes_of}
use nestjs_app.Mail.Service.{PasswordResetMailJob, Queue, MailSettings, smtp, Outbox}
use nestjs_app.Mail.Service.Delivery.{IsQueue, send_all, MailEvent, sent, removed, send_all-ok}
use nestjs_app.Mail.Processor.{Job, password_reset, Reports}
use nestjs_app.Mail.Processor.Attempts.{report_all, given_up, report_all-given_up}

abbrev Jobs : Type 0
Jobs = String → Option PasswordResetMailJob

-- A job is held under its id.
abbrev add_if_new : Option PasswordResetMailJob → String → PasswordResetMailJob → Jobs → Jobs
add_if_new none id job jobs other = if str_eq other id then some job else jobs other
add_if_new (some held) id job jobs other = jobs other

abbrev without : String → Jobs → Jobs
without id jobs other = if str_eq other id then none else jobs other

abbrev queue : Queue
queue = record {
  State = Jobs;
  add = λ id job jobs. (ok tt, add_if_new (jobs id) id job jobs);
  remove = without;
}

other_kept :
    (other id : String) (job : PasswordResetMailJob) (jobs : Jobs)
    (waiting : Option PasswordResetMailJob)
    → str_eq other id ≡ false
    → add_if_new waiting id job jobs other ≡ jobs other
other_kept other id job jobs none e = rw e refl
other_kept other id job jobs (some held) e = refl

queue-IsQueue : IsQueue queue
queue-IsQueue = record {
  held = λ id jobs. jobs id;
  held-add = λ id job s fresh answered. rw (fresh, eq_refl id) refl;
  add-held = λ id job other s held. rw held refl;
  held-add_other = λ other id job s differs. other_kept other id job s (s id) differs;
  held-remove = λ id s. rw (eq_refl id) refl;
  held-remove_other = λ other id s differs. rw differs refl;
}

abbrev settings : MailSettings
settings = record { driver = smtp; frontend_url = "https://app.example.com" }

abbrev empty_box : Outbox crypto settings queue
empty_box = record { logged = []; jobs = λ id. none }

send_all-ok_example :
    (send_all crypto settings queue
      (record { email = "jane@example.com"; token = "t1" } ∷ [])
      empty_box).0
    ≡ ok tt
send_all-ok_example =
    send_all-ok crypto settings queue (record { email = "jane@example.com"; token = "t1" } ∷ [])
      empty_box

-- Two requests for one token and one for another; then the job of the first token is removed, and
-- that token is mailed again.
abbrev events : List MailEvent
events =
    sent "jane@example.com" "t1"
    ∷ sent "bob@example.com" "t2"
    ∷ sent "mallory@example.com" "t1"
    ∷ removed "t1"
    ∷ sent "jane.doe@example.com" "t1"
    ∷ []

abbrev job : Job
job = record {
  id = some "pwreset-1";
  job_data = password_reset (record { email = "jane@example.com"; token = "t1" });
  attempts = some 3;
  attempts_made = 0;
}

abbrev no_reports : Reports
no_reports = record { last_permanent_failure = none; alerts = [] }

report_all-given_up_example :
    report_all "https://hooks.example.com" job
      (record { message = "timeout"; at = 1 }
        ∷ record { message = "timeout"; at = 2 }
        ∷ record { message = "refused"; at = 3 }
        ∷ [])
      no_reports
    ≡ given_up "https://hooks.example.com" job (record { message = "refused"; at = 3 }) no_reports
report_all-given_up_example =
    report_all-given_up "https://hooks.example.com"
      (record { message = "timeout"; at = 1 } ∷ record { message = "timeout"; at = 2 } ∷ [])
      (record { message = "refused"; at = 3 }) job no_reports refl

ttl_test : ttl_minutes_of 1800000 ≡ 30
unfolding ttl_minutes_of
ttl_test = refl
