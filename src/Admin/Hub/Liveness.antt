-- ===== src/Admin/Hub/Liveness.antt =====
-- When the hub goes on, and when it has stopped for good.
use ziyad_messenger.Base.{
  ℕ, zero, suc, ◌+◌, ◌≤◌, String, false, any, List, [], ◌∷◌, ◌++◌, map, none, some, ◌≡◌, refl, sym,
  arith, ◌∙◌, ltb, select, length, length-append, any-append, All,
}
use mathlib.Core.List.{append_assoc, append-nil}
use ziyad_messenger.Admin.Hub.{
  Client, IsNew, register, is_conn, send_pending, Event, Member, Hub, new_hub, capacity, register,
  has_room, put, deliver, take_from, receive, Step, Run,
}

-- `Run` waits to put its own event into the queue, which is full.
abbrev pub IsStuck : Hub → Type 0
IsStuck h = (e : Event) × (h.pending ≡ some e) × (ltb (length h.broadcast) capacity ≡ false)

-- Neither the queue nor who is a client has changed.
abbrev pub IsSame : Hub → Hub → Type 0
IsSame h h' =
    (h'.pending ≡ h.pending)
    × (h'.broadcast ≡ h.broadcast)
    × (map (λ (x : Member). x.client) h'.clients ≡ map (λ (x : Member). x.client) h.clients)

map-take_from :
    (n : ℕ) (xs : List Member)
    → map (λ (x : Member). x.client) (map (take_from n) xs) ≡ map (λ (x : Member). x.client) xs
map-take_from n [] = refl
map-take_from n (x ∷ xs) = ground (arith, map-take_from n xs)

Step-IsSame : {h h' : Hub} → Step h h' → IsStuck h → IsSame h h'
unfolding receive
Step-IsSame (Step.registering {h} c ready new) (e, p, full) = cc
Step-IsSame (Step.unregistering {h} c ready) (e, p, full) = cc
Step-IsSame (Step.delivering {h} e' es ready q) (e, p, full) = cc
Step-IsSame (Step.sending {h} e' q room) (e, p, full) = cc
Step-IsSame (Step.emitting {h} e' room) (e, p, full) = cc
Step-IsSame (Step.receiving {h} n) (e, p, full) = (refl, refl, map-take_from n h.clients)

-- Once stuck, the hub takes no step by which a client comes or goes or a message leaves the queue.
Run-IsSame : {h h' : Hub} → Run h h' → IsStuck h → IsSame h h'
Run-IsSame Run.stop k = (refl, refl, refl)
Run-IsSame (Run.next {h} {h₁} {h₂} st r) (e, p, full) =
    let (p₁, q₁, c₁) = Step-IsSame st (e, p, full) in
    let (p₂, q₂, c₂) = Run-IsSame r (e, ground (arith, p₁, p), ground (arith, q₁, full)) in
    (cc, cc, cc)

-- Connections that come one after the other, each with its event in the queue, while no message is taken.
module _ (name : ℕ → String) where
  abbrev pub newcomer : ℕ → Client
  newcomer n = record { conn = n; id = name n; user_id = name n }

  abbrev pub arrival : ℕ → Event
  arrival n = Event.user_connected (name n) (name n)

  unfoldable pub crowd : ℕ → Hub
  crowd zero = new_hub
  crowd (suc n) = send_pending (arrival n) (register (newcomer n) (crowd n))

  -- The next one finds the queue full.
  unfoldable pub stuck : Hub
  stuck = register (newcomer capacity) (crowd capacity)

  crowd-queue : (n : ℕ) → length (crowd n).broadcast ≡ n
  unfolding crowd new_hub send_pending register
  crowd-queue zero = refl
  crowd-queue (suc n) =
      omega (arith, crowd-queue n, length-append (crowd n).broadcast (arrival n ∷ []))

  crowd-ready : (n : ℕ) → (crowd n).pending ≡ none
  unfolding crowd new_hub send_pending
  crowd-ready zero = refl
  crowd-ready (suc n) = refl

  crowd-clients : (n m : ℕ) → n ≤ m → any (is_conn m) (crowd n).clients ≡ false
  unfolding crowd new_hub send_pending register
  crowd-clients zero m h = refl
  crowd-clients (suc n) m h = ground (
    arith,
    crowd-clients n m,
    crowd-clients n n,
    any-append (is_conn m) (crowd n).clients (record { client = newcomer n; send = [] } ∷ []),
  )

  crowd-closed : (n : ℕ) → (crowd n).closed ≡ []
  unfolding crowd new_hub send_pending register
  crowd-closed zero = refl
  crowd-closed (suc n) = crowd-closed n

  crowd-IsNew : (n : ℕ) → IsNew (newcomer n) (crowd n)
  crowd-IsNew n = (crowd-clients n n (omega arith), rw (crowd-closed n) refl)

  crowd-Run : (n : ℕ) (last : Hub) → n ≤ capacity → Run (crowd n) last → Run new_hub last
  unfolding crowd register
  crowd-Run zero last h r = r
  crowd-Run (suc n) last h r = crowd-Run n last (omega arith) (
      Run.next (Step.registering (newcomer n) (crowd-ready n) (crowd-IsNew n))
        (Run.next (Step.sending (arrival n) refl (ground (arith, crowd-queue n))) r))

  stuck-IsStuck : IsStuck stuck
  unfolding stuck register
  stuck-IsStuck = (arrival capacity, refl, ground (arith, crowd-queue capacity))

  stuck-Run : Run new_hub stuck
  unfolding stuck
  stuck-Run = crowd-Run capacity stuck (omega arith) (
      Run.next (Step.registering (newcomer capacity) (crowd-ready capacity) (crowd-IsNew capacity))
        Run.stop)

  -- A new hub can come to a stop for good: 257 connections that come before the hub takes a message lead to a state
  -- from where in no run a message leaves the queue or a client comes or goes.
  pub stuck_for_good : (h : Hub) → Run stuck h → Run new_hub stuck × IsSame stuck h
  stuck_for_good h r = (stuck-Run, Run-IsSame r stuck-IsStuck)

-- Every member has room for `n` messages more.
abbrev pub HaveRoom : ℕ → List Member → Type 0
HaveRoom n xs = All (λ (x : Member). length x.send + n ≤ capacity) xs

abbrev pub put_all : List Event → Member → Member
put_all es x = record x { send = x.send ++ es }

select-has_room : (n : ℕ) (xs : List Member) → HaveRoom (suc n) xs → select has_room xs ≡ xs
select-has_room n [] h = refl
select-has_room n (x ∷ xs) h = ground (arith, h.0, select-has_room n xs h.1)

map-put-HaveRoom :
    (n : ℕ) (e : Event) (xs : List Member) → HaveRoom (suc n) xs → HaveRoom n (map (put e) xs)
map-put-HaveRoom n e [] h = tt
map-put-HaveRoom n e (x ∷ xs) h =
    (omega (arith, h.0, length-append x.send (e ∷ [])), map-put-HaveRoom n e xs h.1)

map-put_all_nil : (xs : List Member) → map (put_all []) xs ≡ xs
map-put_all_nil [] = refl
map-put_all_nil (x ∷ xs) = ground (arith, map-put_all_nil xs, append-nil x.send)

map-put_all_cons :
    (e : Event) (es : List Event) (xs : List Member)
    → map (put_all es) (map (put e) xs) ≡ map (put_all (e ∷ es)) xs
map-put_all_cons e es [] = refl
map-put_all_cons e es (x ∷ xs) =
    ground (arith, map-put_all_cons e es xs, append_assoc x.send (e ∷ []) es)

-- Messages that the hub takes and delivers, while nobody comes, goes or sends.
pub data Deliveries : Hub → Hub → Type 0 where
  none_taken : {h : Hub} → Deliveries h h
  taken :
      {h h' : Hub} (e : Event) (es : List Event)
      → h.pending ≡ none
      → h.broadcast ≡ e ∷ es
      → Deliveries (deliver e es h) h'
      → Deliveries h h'

pub Deliveries-Run : {h h' : Hub} → Deliveries h h' → Run h h'
Deliveries-Run none_taken = Run.stop
Deliveries-Run (taken e es ready q d) = Run.next (Step.delivering e es ready q) (Deliveries-Run d)

one_put :
    (e : Event) (es : List Event) (h : Hub)
    → HaveRoom (suc (length es)) h.clients
    → ((deliver e es h).clients ≡ map (put e) h.clients)
      × ((deliver e es h).broadcast ≡ es)
      × ((deliver e es h).pending ≡ h.pending)
unfolding deliver
one_put e es h room = rw (select-has_room (length es) h.clients room) (refl, refl, refl)

drained :
    (es : List Event) (h : Hub)
    → h.pending ≡ none
    → h.broadcast ≡ es
    → HaveRoom (length es) h.clients
    → (h' : Hub) × Deliveries h h' × (h'.broadcast ≡ []) × (h'.clients ≡ map (put_all es) h.clients)
drained [] h ready q room = (h, none_taken, q, sym (map-put_all_nil h.clients))
drained (e ∷ es) h ready q room =
    let (clients, queue, pending) = one_put e es h room in
    let (h', r, empty, got) =
      drained es (deliver e es h) (pending ∙ ready) queue
        (rw clients (map-put-HaveRoom (length es) e h.clients room)) in
    (h', taken e es ready q r, empty, got ∙ rw clients (map-put_all_cons e es h.clients))

-- However many messages a hub has taken from its queue and delivered, when at first it was not waiting and its
-- clients had room for all: by taking the others it comes to an empty queue, and then every client has got all the
-- messages in their order.
pub drains :
    {h h' : Hub}
    → h.pending ≡ none
    → HaveRoom (length h.broadcast) h.clients
    → Deliveries h h'
    → (last : Hub) × Deliveries h' last
      × (last.broadcast ≡ [])
      × (last.clients ≡ map (put_all h.broadcast) h.clients)
drains {h} ready room none_taken = drained h.broadcast h ready refl room
drains {h} ready room (taken e es idle q d) =
    let enough = rw q at room in
    let (clients, queue, pending) = one_put e es h enough in
    let (last, more, empty, got) =
      drains (pending ∙ ready)
        (rw (clients, queue) (map-put-HaveRoom (length es) e h.clients enough)) d in
    (last, more, empty, got ∙ rw (clients, queue, q) (map-put_all_cons e es h.clients))
