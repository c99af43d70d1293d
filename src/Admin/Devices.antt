-- ===== src/Admin/Devices.antt =====
-- backend/admin-api/internal/devices/handler.go.
use Prim.Native.String
use ziyad_messenger.Base.{
  ℕ, String, Bool, true, false, not, List, map, Option, none, some, ◌==◌, ltb, length, select,
}
use ziyad_messenger.Base.State.{Result, ok, ◌>>=◌, ◌>>◌}
use ziyad_messenger.Base.Order.{order_by}
use ziyad_messenger.Admin.Store.{
  DeviceRow, Db, M, query, exec, Stop, or_500, or_not_found, Ctx, logged,
}

pub record Device : Type 0 where
  pub id : String
  pub user_id : String
  pub device_name : String
  pub fingerprint : String
  pub last_seen : ℕ
  pub created_at : ℕ

-- The zero value stands for NULL, which the pointer allows.
abbrev or_zero : Option ℕ → ℕ
or_zero none = 0
or_zero (some n) = n

unfoldable pub scan_device : DeviceRow → Device
scan_device d = record {
  id = d.id;
  user_id = d.user_id;
  device_name = d.device_name;
  fingerprint = d.fingerprint;
  last_seen = or_zero d.last_seen;
  created_at = d.created_at;
}

-- ORDER BY last_seen DESC: NULL is the least value, and comes last.
abbrev seen_later : Option ℕ → Option ℕ → Bool
seen_later none b = false
seen_later (some m) none = true
seen_later (some m) (some n) = ltb n m

unfoldable pub list_devices : M Stop (List Device)
unfolding scan_device
list_devices = or_500 (
    query λ d. ok (
      map scan_device
        (order_by (λ (a b : DeviceRow). seen_later a.last_seen b.last_seen) d.devices)))

unfoldable pub delete_device : String → Db → Result String (ℕ × Db)
delete_device id d = ok (
  length (select (λ (x : DeviceRow). x.id == id) d.devices),
  record d { devices = select (λ (x : DeviceRow). not (x.id == id)) d.devices },
)

abbrev pub target : String → String
target id = String.◌++◌ "devices/" id

unfoldable pub delete_device_handler : String → Ctx → M Stop (Unit {0})
unfolding delete_device
delete_device_handler id ctx = do
  n ← or_500 (exec (delete_device id))
  or_not_found "not found" n
  logged ctx "device.delete" (target id) ""
