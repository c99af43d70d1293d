-- ===== src/Admin/Channels/Creation.antt =====
-- The transaction by which a channel is made.
use ziyad_messenger.Base.{
  false, [], ◌∷◌, ◌++◌, some, ◌≡◌, ◌⊎◌, if◌then◌else◌, arith, ◌==◌, eq_iff, any, ◌≢◌,
}
use ziyad_messenger.Base.State.{ok}
use ziyad_messenger.Admin.Store.{ChannelRow, Db, Service, Ctx, query, exec, log, logged, insert_log}
use ziyad_messenger.Admin.Channels.{
  CreateChannelRequest, is_member, insert_channel, insert_member, new_channel, owner,
  insert_with_owner, create_channel,
}

-- The tables as they were, or with the channel of the request and its owner.
abbrev pub IsWhole : CreateChannelRequest → Ctx → Db → Db → Type 0
IsWhole req ctx d d' =
    (record d' { audit_logs = d.audit_logs } ≡ d)
    ⊎ (record d' { audit_logs = d.audit_logs } ≡ record d {
      channels = d.channels ++ new_channel req ctx ∷ [];
      channel_members = d.channel_members ++ owner ctx ∷ [];
    })

-- Whatever the engine does, a channel is made together with the membership of its owner, or neither is.
pub create_channel-IsWhole :
    (req : CreateChannelRequest) (ctx : Ctx) (s : Service)
    → IsWhole req ctx s.db (create_channel (some req) ctx s).1.db
unfolding create_channel insert_with_owner insert_channel insert_member new_channel owner query exec
    logged log insert_log
create_channel-IsWhole req ctx s = ground arith

-- Where the engine answers, a channel whose id is new is made, and answered with its id, name and type.
pub create_channel_made :
    (req : CreateChannelRequest) (ctx : Ctx) (s : Service)
    → s.faults ≡ []
    → req.name ≢ ""
    → any (λ (c : ChannelRow). c.id == ctx.uuid) s.db.channels ≡ false
    → any (is_member ctx.uuid ctx.claims.user_id) s.db.channel_members ≡ false
    → let x = create_channel (some req) ctx s in
      (x.0 ≡ ok (ctx.uuid, req.name, if req.type == "" then "public" else req.type))
      × (x.1.db.channels ≡ s.db.channels ++ new_channel req ctx ∷ [])
      × (x.1.db.channel_members ≡ s.db.channel_members ++ owner ctx ∷ [])
unfolding create_channel insert_with_owner insert_channel insert_member new_channel owner query exec
    logged log insert_log
create_channel_made req ctx s f named new free = (
  ground (arith, eq_iff req.name ""),
  ground (arith, eq_iff req.name ""),
  ground (arith, eq_iff req.name ""),
)
