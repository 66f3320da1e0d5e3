-- ===== src/Mail/Template.antt =====
-- src/modules/auth/mail/mail.templates.ts. `encodeURIComponent` and the printing of a number are
-- parameters.
use Prim.Native.String
use nestjs_app.Prelude.{ℕ, ◌+◌, ◌/◌, max, String, Option, none, some, List, [], ◌∷◌}
use nestjs_app.Js.{join}
use nestjs_app.Durations.{parse_duration_to_ms}

pub record EmailContent : Type 0 where
  pub subject : String
  pub html : String
  pub text : String

pub record PasswordResetEmailInput : Type 0 where
  pub frontend_url : String
  pub reset_token : String
  pub reset_token_ttl : String

pub record Texts : Type 0 where
  pub encode_uri_component : String → String
  pub show : ℕ → String

abbrev concat : List String → String
concat [] = ""
concat (s ∷ ss) = String.◌++◌ s (concat ss)

-- `Math.max(1, Math.round(ms / 60_000))`
unfoldable pub ttl_minutes_of : ℕ → ℕ
ttl_minutes_of ms = max 1 ((ms + 30000) / 60000)

module _ (texts : Texts) where
  open texts use {encode_uri_component, show}

  unfoldable pub reset_url : PasswordResetEmailInput → String
  reset_url input =
      concat (
        input.frontend_url ∷ "/reset-password?token=" ∷ encode_uri_component input.reset_token ∷ [])

  unfoldable pub text_of : (reset_url ttl_minutes : String) → String
  unfolding join
  text_of reset_url ttl_minutes = join "\n" (
      "Hello,"
      ∷ ""
      ∷ "We received a request to reset your password."
      ∷ concat ("Open the link below within " ∷ ttl_minutes ∷ " minutes to choose a new one:" ∷ [])
      ∷ ""
      ∷ reset_url
      ∷ ""
      ∷ "If you did not request a reset, you can safely ignore this email -"
      ∷ "your current password keeps working."
      ∷ ""
      ∷ "- The My app team"
      ∷ [])

  unfoldable pub html_of : (reset_url ttl_minutes : String) → String
  unfolding join
  html_of reset_url ttl_minutes = join "\n" (
      "<!doctype html>"
      ∷ "<html><body style=\"font-family:Arial,Helvetica,sans-serif;color:#1f2933;line-height:1.5\">"
      ∷ "<p>Hello,</p>"
      ∷ "<p>We received a request to reset your password.</p>"
      ∷ concat (
          "<p><a href=\"" ∷ reset_url
          ∷ "\" style=\"display:inline-block;padding:10px 18px;background:#2563eb;color:#ffffff;text-decoration:none;border-radius:6px\">Reset your password</a></p>"
          ∷ [])
      ∷ concat (
          "<p>Or paste this link into your browser (valid for " ∷ ttl_minutes ∷ " minutes):<br>"
          ∷ reset_url ∷ "</p>" ∷ [])
      ∷ "<p style=\"color:#7b8794\">If you did not request a reset, you can safely ignore this email - your current password keeps working.</p>"
      ∷ "<p>- The My app team</p>"
      ∷ "</body></html>"
      ∷ [])

  abbrev content_of : PasswordResetEmailInput → Option ℕ → Option EmailContent
  content_of input none = none
  content_of input (some ms) = some (record {
    subject = "My app password reset";
    html = html_of (reset_url input) (show (ttl_minutes_of ms));
    text = text_of (reset_url input) (show (ttl_minutes_of ms));
  })

  -- `none` is the error of a duration that does not parse.
  unfoldable pub build_password_reset_email : PasswordResetEmailInput → Option EmailContent
  unfolding reset_url text_of html_of ttl_minutes_of parse_duration_to_ms
  build_password_reset_email input = content_of input (parse_duration_to_ms input.reset_token_ttl)
