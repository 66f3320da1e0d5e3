-- ===== src/Controllers/App.antt =====
-- What the controllers are given, and the rules that they name.
use nestjs_app.Prelude.{String, Option, none, some, [], ◌∷◌}
use nestjs_app.Db.{User, manage}
use nestjs_app.Users.Listing.{Query}
use nestjs_app.Roles.Listing.{Collation}
use nestjs_app.Permissions.Cache.{Rules, Backend}
use nestjs_app.Http.{Framework}
use nestjs_app.Guards.Permission.{Casl}

pub record App : Type 1 where
  pub backend : Backend
  pub casl : Casl
  pub framework : Framework
  pub query : Query
  pub collation : Collation

-- `PermissionSubject`
abbrev pub user_subject : String
user_subject = "User"

abbrev pub role_subject : String
role_subject = "Role"

abbrev pub permission_subject : String
permission_subject = "Permission"

abbrev pub notification_subject : String
notification_subject = "Notification"

abbrev pub metric_subject : String
metric_subject = "Metric"

-- `@RequirePermissions({ action: MANAGE, subject })`
abbrev pub manages : String → Rules
manages subject = record { action = manage; subject = subject } ∷ []

-- `@CurrentUser('id')`
abbrev pub current_user_id : Option User → Option String
current_user_id none = none
current_user_id (some user) = some user.id
