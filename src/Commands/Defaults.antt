-- ===== src/Commands/Defaults.antt =====
-- pkg/socket/cmd/handler.go: AddDefaultRoles, the rules and the roles that the server starts with.
pub mod Bound
pub mod Escalation
mod Tests
use streaming_server.Base.{Bool, List, [], ◌∷◌, ◌++◌, map}
use streaming_server.Base.Text.{Str, codes}
use streaming_server.Rbac.Role.{Rule, Role}
use streaming_server.Rbac.Authorizer.{Authorizer, add_role}
use streaming_server.Sessions.{admin_role, user_role}

abbrev pub viewer_role : Str
viewer_role = codes "viewer"

abbrev clear_chat : Rule
clear_chat = record { name = codes "clear the chat"; actions = codes "clear" ∷ [] }

abbrev debug_reload : Rule
debug_reload = record {
  name = codes "reload all clients";
  actions = codes "debug/reload" ∷ codes "debug/refresh" ∷ [];
}

abbrev help : Rule
help = record { name = codes "access command help"; actions = codes "help" ∷ [] }

abbrev stream_info : Rule
stream_info = record { name = codes "access stream info"; actions = codes "stream/info" ∷ [] }

abbrev stream_control : Rule
stream_control = record {
  name = codes "play/pause/skip/reset/load the stream";
  actions =
      codes "stream/play"
      ∷ codes "stream/skip"
      ∷ codes "stream/load"
      ∷ codes "stream/set"
      ∷ codes "stream/pause"
      ∷ codes "stream/stop"
      ∷ codes "stream/seek"
      ∷ [];
}

abbrev subtitles : Rule
subtitles = record {
  name = codes "control stream subtitles";
  actions = codes "subs" ∷ codes "subtitles" ∷ codes "subtitles/*" ∷ codes "subs/*" ∷ [];
}

abbrev queue_add : Rule
queue_add = record { name = codes "add streams to the queue"; actions = codes "queue/add/*" ∷ [] }

abbrev queue_list : Rule
queue_list = record { name = codes "list items in the queue"; actions = codes "queue/list/*" ∷ [] }

abbrev queue_clear_mine : Rule
queue_clear_mine = record {
  name = codes "clear items in your queue";
  actions =
      codes "queue/clear/mine"
      ∷ codes "queue/clear/mine/*"
      ∷ codes "queue/clear/me"
      ∷ codes "queue/clear/me/*"
      ∷ [];
}

abbrev queue_clear_room : Rule
queue_clear_room = record {
  name = codes "clear items in the room's queue";
  actions =
      codes "queue/clear/room"
      ∷ codes "queue/clear/room/*"
      ∷ codes "queue/clear/all"
      ∷ codes "queue/clear/all/*"
      ∷ [];
}

abbrev queue_order_mine : Rule
queue_order_mine = record {
  name = codes "re-order items in your queue";
  actions =
      codes "queue/order/mine"
      ∷ codes "queue/order/mine/*"
      ∷ codes "queue/order/me"
      ∷ codes "queue/order/me/*"
      ∷ [];
}

abbrev queue_order_room : Rule
queue_order_room = record {
  name = codes "re-order items in the room's queue";
  actions =
      codes "queue/order/room"
      ∷ codes "queue/order/room/*"
      ∷ codes "queue/order/all"
      ∷ codes "queue/order/all/*"
      ∷ codes "queue/order/next/*"
      ∷ [];
}

abbrev pub role_edit : Rule
role_edit = record {
  name = codes "Add, replace, or remove roles for a subject";
  actions = codes "role/set/*" ∷ codes "role/add/*" ∷ codes "role/remove/*" ∷ [];
}

abbrev user_update_name : Rule
user_update_name = record {
  name = codes "update a client's username";
  actions = codes "user/name/*" ∷ [];
}

abbrev user_list : Rule
user_list = record { name = codes "list users in a room"; actions = codes "user/list" ∷ [] }

abbrev volume : Rule
volume = record { name = codes "update your volume"; actions = codes "volume/*" ∷ [] }

abbrev whoami : Rule
whoami = record { name = codes "list your current username"; actions = codes "whoami" ∷ [] }

abbrev queue_migrate : Rule
queue_migrate = record {
  name = codes "migrate a user's queue to yours";
  actions = codes "queue/migrate/*" ∷ [];
}

abbrev pub viewer : Role
viewer = record {
  name = viewer_role;
  rules = help ∷ stream_info ∷ queue_list ∷ user_list ∷ volume ∷ whoami ∷ [];
}

abbrev pub user : Role
user = record {
  name = user_role;
  rules =
      (clear_chat ∷ queue_add ∷ queue_clear_mine ∷ queue_order_mine ∷ user_update_name ∷ [])
      ++ viewer.rules;
}

abbrev pub admin : Role
admin = record {
  name = admin_role;
  rules =
      (debug_reload ∷ subtitles ∷ queue_clear_room ∷ queue_migrate ∷ queue_order_room ∷ role_edit
        ∷ stream_control ∷ [])
      ++ user.rules;
}

abbrev pub starting_roles : List Role
starting_roles = viewer ∷ user ∷ admin ∷ []

-- What AddRole returns is dropped.
add_each : List Role → Authorizer → Authorizer
add_each [] a = a
add_each (r ∷ rs) a = add_each rs (add_role a r).0

unfoldable pub add_default_roles : Authorizer → Authorizer
unfolding add_each
add_default_roles a = add_each starting_roles a
