-- ===== src/Core/Identity.antt =====
-- core/identity.py: opaque ids are texts with a character that is no space.
use research_os.Common.{Result, ok, err, ◌>>=◌, if◌then◌else◌}
use research_os.Common.Text.{Text, is_blank}
use research_os.Core.Enums.{ActorType, CoreError, core_input_error}

unfoldable pub require_opaque_id : Text → Result CoreError Text
require_opaque_id value = if is_blank value then err core_input_error else ok value

pub record Actor : Type 0 where
  pub actor_id : Text
  pub actor_type : ActorType

-- `Actor.__post_init__`: an actor that exists has passed it.
pub new_actor : Text → ActorType → Result CoreError Actor
unfolding require_opaque_id
new_actor actor_id actor_type = do
  ident ← require_opaque_id actor_id
  ok (record { actor_id = ident; actor_type = actor_type })
