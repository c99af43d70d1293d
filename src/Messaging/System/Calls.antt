-- ===== src/Messaging/System/Calls.antt =====
-- The calls that leave the clients as they were, whatever the engine answers.
use ziyad_messenger.Base.{String, arith}
use ziyad_messenger.Base.State.Laws.{Keeps}
use ziyad_messenger.Messaging.Store.{query, exec, transaction}
use ziyad_messenger.Messaging.Store.Laws.{SameClients}
use ziyad_messenger.Messaging.Queries.{get_channel_type, user_exists}
use ziyad_messenger.Messaging.Dm.{create_dm_channel, find_or_create_dm_channel}
use ziyad_messenger.Messaging.Access.{dm_with, or_dm, resolve_requested_channel}

pub find_or_create-SameClients : (u v : String) → Keeps SameClients (find_or_create_dm_channel u v)
unfolding find_or_create_dm_channel create_dm_channel transaction query exec
find_or_create-SameClients u v r = ground arith

dm_with-SameClients : (u v : String) → Keeps SameClients (dm_with u v)
unfolding dm_with user_exists query
dm_with-SameClients u v r = ground (arith, find_or_create-SameClients u v (user_exists v r).1)

pub resolve-SameClients : (u c : String) → Keeps SameClients (resolve_requested_channel u c)
unfolding resolve_requested_channel or_dm get_channel_type query
resolve-SameClients u c r = ground (arith, dm_with-SameClients u c (get_channel_type c r).1)
