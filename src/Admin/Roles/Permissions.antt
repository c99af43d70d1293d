-- ===== src/Admin/Roles/Permissions.antt =====
-- Permissions between the request, the TEXT column and the list of roles.
use ziyad_messenger.Base.{
  String, List, [], ◌∷◌, ◌++◌, map, Option, none, some, ◌≡◌, ◌≢◌, refl, arith, eq_iff,
}
use mathlib.Core.List.{Mem, mem-map_of_mem, mem-append_right, mem-cons_self}
use mathlib.Core.List.Perm
use ziyad_messenger.Base.State.{ok}
use ziyad_messenger.Base.Order.{order_by, text_lt}
use ziyad_messenger.Base.Order.Laws.{order_by-perm}
use ziyad_messenger.Admin.Store.{RoleRow, Service, Ctx, query, exec, log, logged, insert_log}
use ziyad_messenger.Admin.Roles.{
  Json, Role, RoleRequest, perm_encode, perm_decode, insert_role, list_roles, create_role,
}

-- What encoding/json does on lists of texts that are not empty.
pub record IsFaithful (json : Json) : Type 0 where
  pub decodes : (ps : List String) → json.unmarshal (json.marshal ps) ≡ ps
  pub brackets : (p : String) (ps : List String) → json.marshal (p ∷ ps) ≢ "[]"
  pub text : (p : String) (ps : List String) → json.marshal (p ∷ ps) ≢ ""

module _ (json : Json) (faithful : IsFaithful json) where
  -- Permissions come back from the column as they were put there.
  pub perm_decode-perm_encode : (ps : List String) → perm_decode json (perm_encode json ps) ≡ ps
  unfolding perm_decode perm_encode
  perm_decode-perm_encode [] = refl
  perm_decode-perm_encode (p ∷ ps) = ground (
    arith,
    faithful.decodes (p ∷ ps),
    faithful.brackets p ps,
    faithful.text p ps,
    eq_iff (json.marshal (p ∷ ps)) "",
    eq_iff (json.marshal (p ∷ ps)) "[]",
  )

shown : Json → RoleRow → Role
shown json r = record {
  id = r.id;
  name = r.name;
  permissions = perm_decode json r.permissions;
  created_at = r.created_at;
  updated_at = r.updated_at;
}

made : Json → RoleRequest → Ctx → RoleRow
made json req ctx = record {
  id = ctx.uuid;
  name = req.name;
  permissions = perm_encode json req.permissions;
  created_at = ctx.now;
  updated_at = ctx.now;
}

create_role-eq-ok :
    (json : Json) (req : RoleRequest) (ctx : Ctx) (s s' : Service) (x : String × String)
    → create_role json (some req) ctx s ≡ (ok x, s')
    → s'.db.roles ≡ s.db.roles ++ made json req ctx ∷ []
unfolding create_role insert_role exec logged log insert_log made
create_role-eq-ok json req ctx s s' x h = ground arith

-- A role that was created is listed with the permissions of the request, where the JSON package is faithful and
-- the engine answers the list.
pub list_roles-create_role :
    (json : Json) (req : RoleRequest) (ctx : Ctx) (s s' : Service) (x : String × String)
    (faults : List (Option String))
    → IsFaithful json
    → create_role json (some req) ctx s ≡ (ok x, s')
    → s'.faults ≡ none ∷ faults
    → (rows : List Role) × (role : Role) × ((list_roles json s').0 ≡ ok rows)
      × Mem role rows
      × (role.name ≡ req.name)
      × (role.permissions ≡ req.permissions)
unfolding list_roles query shown made
list_roles-create_role json req ctx s s' x faults faithful h f =
    let sorted = order_by (λ (a b : RoleRow). text_lt a.name b.name) s'.db.roles in
    (
      map (shown json) sorted,
      shown json (made json req ctx),
      ground arith,
      mem-map_of_mem (shown json) {a = made json req ctx} (
          (Perm.mem_iff (order_by-perm _ s'.db.roles)).1 (
            rw (create_role-eq-ok json req ctx s s' x h)
              (mem-append_right s.db.roles mem-cons_self))),
      refl,
      perm_decode-perm_encode json faithful req.permissions,
    )
