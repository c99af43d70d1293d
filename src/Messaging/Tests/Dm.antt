-- ===== src/Messaging/Tests/Dm.antt =====
-- The theorems on DM channels and the channel list, at the router of the tests.
use ziyad_messenger.Base.{true, ◌≡◌, ◌||◌, refl, ◌==◌, any}
use ziyad_messenger.Messaging.Queries.{same_view, accessible_rows}
use ziyad_messenger.Messaging.Queries.Channels.{accessible_rows_lem}
use ziyad_messenger.Messaging.Dm.Privacy.{find_or_create_private}
use ziyad_messenger.Messaging.Access.Laws.{may_access}
use ziyad_messenger.Messaging.Tests.{messaging, private_one, seeded, router_on, idle, dm_db}

find_or_create_private_example :
    may_access "u-alice" "dm:u-bob:u-charlie" dm_db
    ≡ ("u-charlie" == "u-alice" || "u-bob" == "u-alice")
unfolding messaging
find_or_create_private_example =
    find_or_create_private "u-charlie" "u-bob" "u-alice" idle {r' = router_on dm_db} refl refl refl

accessible_rows_lem_example : any (same_view private_one) (accessible_rows "u-bob" seeded) ≡ true
unfolding messaging
accessible_rows_lem_example = accessible_rows_lem "u-bob" seeded private_one
