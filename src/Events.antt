-- ===== src/Events.antt =====
-- app/events/miniverse_event.py and app/enums/event_type.py: what is published on the channel.
use miniverse_backend.Base.{Option, none, some, List, [], Text, map}
use miniverse_backend.Models.{MiniverseUserRole}

pub data EventType : Type 0 where
  sync players operators player_ban created deleted updated : EventType

-- The payload of the control events is JSON; the other events carry `{}`, here the empty text.
pub record MiniverseEvent : Type 0 where
  pub type : EventType
  pub payload : Text
  pub miniverse_id : Option Text
  pub updated_user_ids : Option (List Text)

abbrev pub user_list_from_user_role_list : List MiniverseUserRole → List Text
user_list_from_user_role_list user_roles = map (λ (r : MiniverseUserRole). r.user_id) user_roles

abbrev event : EventType → Text → Text → Option (List Text) → MiniverseEvent
event type payload miniverse_id ids = record {
  type = type;
  payload = payload;
  miniverse_id = some miniverse_id;
  updated_user_ids = ids;
}

-- The events that the `publish_…` functions put on the channel.
abbrev pub miniverse_control_event : Text → EventType → Text → MiniverseEvent
miniverse_control_event miniverse_id type payload = event type payload miniverse_id none

abbrev pub miniverse_created_event : Text → List Text → MiniverseEvent
miniverse_created_event miniverse_id ids = event EventType.created [] miniverse_id (some ids)

abbrev pub miniverse_deleted_event : Text → List Text → MiniverseEvent
miniverse_deleted_event miniverse_id ids = event EventType.deleted [] miniverse_id (some ids)

abbrev pub miniverse_updated_event : Text → Option (List Text) → MiniverseEvent
miniverse_updated_event miniverse_id ids = event EventType.updated [] miniverse_id ids
