-- ===== src/Core/Authorization.antt =====
-- core/authorization.py: only an active source lets an execution continue.
use research_os.Common.{Bool, true, false, not, Option, none, some, Result, ok, ◌>>◌, if◌then◌else◌}
use research_os.Common.Text.{Text}
use research_os.Core.Enums.{
  AuthorizationSourceState, active, ReasonCode, CoreError, allowed, authorization_missing,
  authorization_inactive,
}
use research_os.Core.Identity.{require_opaque_id}

pub record AuthorizationSourceView : Type 0 where
  pub authorization_source_id : Text
  pub program_id : Text
  pub state : AuthorizationSourceState

-- `AuthorizationSourceView.__post_init__`
pub new_authorization_source_view :
    Text → Text → AuthorizationSourceState → Result CoreError AuthorizationSourceView
new_authorization_source_view source_id program_id state = do
  require_opaque_id source_id
  require_opaque_id program_id
  ok (record { authorization_source_id = source_id; program_id = program_id; state = state })

pub record AuthorizationCheck : Type 0 where
  pub allowed_to_continue : Bool
  pub reason_code : ReasonCode
  pub authorization_source_id : Option Text

abbrev pub is_active : AuthorizationSourceState → Bool
is_active active = true
is_active _ = false

unfoldable pub check_authorization : Option AuthorizationSourceView → AuthorizationCheck
check_authorization none = record {
  allowed_to_continue = false;
  reason_code = authorization_missing;
  authorization_source_id = none;
}
check_authorization (some source) =
    if not (is_active source.state)
    then record {
      allowed_to_continue = false;
      reason_code = authorization_inactive;
      authorization_source_id = some source.authorization_source_id;
    }
    else record {
      allowed_to_continue = true;
      reason_code = allowed;
      authorization_source_id = some source.authorization_source_id;
    }
