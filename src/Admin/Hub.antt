-- ===== src/Admin/Hub.antt =====
-- backend/admin-api/internal/websocket/hub.go, and what handler.go does with a hub.
-- `Run` is one goroutine. It takes a client or a message at a time, and while it waits to put its own event
-- into the full queue it takes nothing: the event is then `pending`. The buffer of a client's `Send`
-- stands with the client. Go ranges over the map in any order; what happens to one client does not hang
-- on the others.
pub mod Laws
pub mod Liveness
use ziyad_messenger.Base.{
  ℕ, String, Bool, true, false, not, List, [], ◌∷◌, ◌++◌, map, Option, none, some, ◌≡◌, ltb, eqb,
  any, select, length, if◌then◌else◌,
}

-- `conn` stands for the pointer.
pub record Client : Type 0 where
  pub conn : ℕ
  pub id : String
  pub user_id : String

-- What is marshalled: the two events of the hub itself, or an event of a caller with its payload.
pub data Event : Type 0 where
  user_connected : String → String → Event
  user_disconnected : String → String → Event
  event : String → String → Event

-- A client with what its channel `Send` holds, the oldest first.
pub record Member : Type 0 where
  pub client : Client
  pub send : List Event

-- `closed` lists the clients whose channel the hub has closed.
pub record Hub : Type 0 where
  pub clients : List Member
  pub broadcast : List Event
  pub pending : Option Event
  pub closed : List Member

-- The capacity of both kinds of channel.
abbrev pub capacity : ℕ
capacity = 256

unfoldable pub new_hub : Hub
new_hub = record { clients = []; broadcast = []; pending = none; closed = [] }

abbrev pub is_conn : ℕ → Member → Bool
is_conn n x = eqb x.client.conn n

-- A new client with an empty channel; `HandleWS` makes one for each connection.
unfoldable pub register : Client → Hub → Hub
register c h = record h {
  clients =
      if any (is_conn c.conn) h.clients
      then h.clients
      else h.clients ++ record { client = c; send = [] } ∷ [];
  pending = some (Event.user_connected c.user_id c.id);
}

unfoldable pub unregister : Client → Hub → Hub
unregister c h = record h {
  clients = select (λ x. not (is_conn c.conn x)) h.clients;
  closed = h.closed ++ select (is_conn c.conn) h.clients;
  pending = some (Event.user_disconnected c.user_id c.id);
}

abbrev pub has_room : Member → Bool
has_room x = ltb (length x.send) capacity

abbrev pub put : Event → Member → Member
put e x = record x { send = x.send ++ e ∷ [] }

-- A message from the queue, whose rest is `es`: who has no room is closed and removed.
unfoldable pub deliver : Event → List Event → Hub → Hub
deliver e es h = record h {
  broadcast = es;
  clients = map (put e) (select has_room h.clients);
  closed = h.closed ++ select (λ x. not (has_room x)) h.clients;
}

-- `h.broadcast <- b`, of another goroutine, and of `Run` itself.
unfoldable pub emit : Event → Hub → Hub
emit e h = record h { broadcast = h.broadcast ++ e ∷ [] }

unfoldable pub send_pending : Event → Hub → Hub
send_pending e h = record h { broadcast = h.broadcast ++ e ∷ []; pending = none }

-- The client's goroutine receives from `Send`.
abbrev rest : List Event → List Event
rest [] = []
rest (e ∷ es) = es

abbrev pub take_from : ℕ → Member → Member
take_from n x = if is_conn n x then record x { send = rest x.send } else x

unfoldable pub receive : ℕ → Hub → Hub
receive n h = record h {
  clients = map (take_from n) h.clients;
  closed = map (take_from n) h.closed;
}

abbrev pub IsNew : Client → Hub → Type 0
IsNew c h = (any (is_conn c.conn) h.clients ≡ false) × (any (is_conn c.conn) h.closed ≡ false)

-- One step of a goroutine.
pub data Step : Hub → Hub → Type 0 where
  registering : {h : Hub} (c : Client) → h.pending ≡ none → IsNew c h → Step h (register c h)
  unregistering : {h : Hub} (c : Client) → h.pending ≡ none → Step h (unregister c h)
  delivering :
      {h : Hub} (e : Event) (es : List Event)
      → h.pending ≡ none
      → h.broadcast ≡ e ∷ es
      → Step h (deliver e es h)
  sending :
      {h : Hub} (e : Event)
      → h.pending ≡ some e
      → ltb (length h.broadcast) capacity ≡ true
      → Step h (send_pending e h)
  emitting : {h : Hub} (e : Event) → ltb (length h.broadcast) capacity ≡ true → Step h (emit e h)
  receiving : {h : Hub} (n : ℕ) → Step h (receive n h)

pub data Run : Hub → Hub → Type 0 where
  stop : {h : Hub} → Run h h
  next : {h h₁ h₂ : Hub} → Step h h₁ → Run h₁ h₂ → Run h h₂
