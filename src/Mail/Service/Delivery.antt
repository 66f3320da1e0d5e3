-- ===== src/Mail/Service/Delivery.antt =====
-- What a request for mail leaves in the queue.
use Prim.Native.String
use nestjs_app.Prelude.{
  ◌≡◌, refl, String, Bool, false, Option, none, some, List, [], ◌∷◌, str_eq, if◌then◌else◌,
}
use nestjs_app.Result.{Exec, Result, ok, pure, ◌>>◌}
use nestjs_app.Auth.Session.{Crypto}
use nestjs_app.Auth.Reset.{MailRequest}
use nestjs_app.Mail.Service.{
  MailDriver, console, smtp, PasswordResetMailJob, Queue, MailSettings, Outbox, send_by, job_id_of,
  send_password_reset,
}

-- BullMQ: a job that is added is held under its id until it is removed, adding another with the
-- same id before that changes nothing, and what is held under one id is not changed by the others.
pub record IsQueue (queue : Queue) : Type 0 where
  pub held : String → queue.State → Option PasswordResetMailJob
  pub held-add :
      (id : String) (job : PasswordResetMailJob) (s : queue.State)
      → held id s ≡ none
      → (queue.add id job s).0 ≡ ok tt
      → held id (queue.add id job s).1 ≡ some job
  pub add-held :
      (id : String) (job other : PasswordResetMailJob) (s : queue.State)
      → held id s ≡ some other
      → queue.add id job s ≡ (ok tt, s)
  pub held-add_other :
      (other id : String) (job : PasswordResetMailJob) (s : queue.State)
      → str_eq other id ≡ false
      → held other (queue.add id job s).1 ≡ held other s
  pub held-remove : (id : String) (s : queue.State) → held id (queue.remove id s) ≡ none
  pub held-remove_other :
      (other id : String) (s : queue.State)
      → str_eq other id ≡ false
      → held other (queue.remove id s) ≡ held other s

-- What happens to the queue: a mail is asked for, or the job of a token is removed.
pub data MailEvent : Type 0 where
  sent : (email token : String) → MailEvent
  removed : (token : String) → MailEvent

module _ (crypto : Crypto) (settings : MailSettings) (queue : Queue) where
  -- Each of the mails that a call of `forgotPassword` asks for.
  abbrev pub send_all : List MailRequest → Exec (Outbox crypto settings queue) (Unit {0})
  send_all [] = pure tt
  send_all (m ∷ ms) = do send_password_reset crypto settings queue m.email m.token; send_all ms

  send-ok :
      (driver : MailDriver) (email token : String) (box : Outbox crypto settings queue)
      → (send_by crypto settings queue driver email token box).0 ≡ ok tt
  send-ok console email token box = refl
  send-ok smtp email token box = refl

  -- Sending never throws, whatever the queue answers; so the flow that asks for mail goes on.
  pub send_all-ok :
      (ms : List MailRequest) (box : Outbox crypto settings queue) → (send_all ms box).0 ≡ ok tt
  unfolding send_password_reset
  send_all-ok [] box = refl
  send_all-ok (m ∷ ms) box = rw (send-ok settings.driver m.email m.token box) (send_all-ok ms _)

  abbrev pub after_event : MailEvent → Outbox crypto settings queue → Outbox crypto settings queue
  after_event (sent email token) box = (send_password_reset crypto settings queue email token box).1
  after_event (removed token) box = record box {
    jobs = queue.remove (job_id_of crypto token) box.jobs;
  }

  abbrev pub after_events :
      List MailEvent → Outbox crypto settings queue → Outbox crypto settings queue
  after_events [] box = box
  after_events (e ∷ es) box = after_events es (after_event e box)

  -- The queue takes every mail that is asked for.
  abbrev pub Takes : List MailEvent → Outbox crypto settings queue → Type 0
  Takes [] box = Unit
  Takes (sent email token ∷ es) box =
      ((queue.add (job_id_of crypto token) (record { email = email; token = token }) box.jobs).0
        ≡ ok tt)
      × Takes es (after_event (sent email token) box)
  Takes (removed token ∷ es) box = Takes es (after_event (removed token) box)

  abbrev pub same_token : String → String → Bool
  same_token token other = str_eq (crypto.hash_token token) (crypto.hash_token other)

  abbrev first_of : Option PasswordResetMailJob → PasswordResetMailJob → PasswordResetMailJob
  first_of none job = job
  first_of (some waiting) job = waiting

  -- The mail of a token that waits after these events: the first that was asked for since the last
  -- removal.
  abbrev pub pending :
      String → List MailEvent → Option PasswordResetMailJob → Option PasswordResetMailJob
  pending token [] waiting = waiting
  pending token (sent email other ∷ es) waiting = pending token es (
      if same_token token other
      then some (first_of waiting (record { email = email; token = other }))
      else waiting)
  pending token (removed other ∷ es) waiting =
      pending token es (if same_token token other then none else waiting)
