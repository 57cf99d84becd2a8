-- ===== src/Authorization.antt =====
-- packages/core/src/services/authorization.service.ts and authorization/permission.service.ts: roles
-- that are assigned to a user within a tenant and application, the permissions they carry, and the
-- decision. The audit calls are not modelled.
pub mod Grants
pub mod Roles
mod Tests
use pezhwan.Base.{
  ℕ, ◌≡◌, Bool, true, false, ◌&&◌, ◌||◌, List, [], ◌∷◌, ◌++◌, map, Option, none, some, ◌==◌,
  if◌then◌else◌, any, all,
}
use pezhwan.Cache.{Cache}
use pezhwan.Mongo.{Collection}
use pezhwan.AccountState
use pezhwan.AccountState.{UserDoc, invalidate_user_tokens}

pub record RoleDoc : Type 0 where
  pub id : ℕ
  pub tenant_id : ℕ
  pub application_id : ℕ
  pub name : ℕ
  pub permission_ids : List ℕ

pub record Assignment : Type 0 where
  pub user_id : ℕ
  pub tenant_id : ℕ
  pub application_id : ℕ
  pub role_id : ℕ
  pub assigned_at : ℕ

pub record PermissionDoc : Type 0 where
  pub id : ℕ
  pub tenant_id : ℕ
  pub application_id : ℕ
  pub name : ℕ

pub record Context : Type 0 where
  pub user_id : ℕ
  pub tenant_id : ℕ
  pub application_id : ℕ

-- `AuthorizationInput`, and the context that a policy engine is asked about.
pub record Request : Type 0 where
  pub context : Context
  pub resource : Option ℕ
  pub action : Option ℕ
  pub resource_id : Option ℕ

pub record IdentityContext : Type 0 where
  pub user_id : ℕ
  pub tenant_id : ℕ
  pub application_id : ℕ
  pub session_id : ℕ
  pub roles : List ℕ
  pub permissions : List ℕ
  pub auth_method : ℕ
  pub authenticated_at : ℕ

pub record World (cache : Cache) : Type 0 where
  pub roles : List RoleDoc
  pub assignments : List Assignment
  pub permissions : List PermissionDoc
  pub accounts : AccountState.World cache

pub data Assigned : Type 0 where
  assigned role_not_found : Assigned

-- The collections of the store.
pub record Store : Type 0 where
  pub users : Collection UserDoc
  pub roles : Collection RoleDoc
  pub assignments : Collection Assignment
  pub permissions : Collection PermissionDoc

abbrev pub named : Context → ℕ → RoleDoc → Bool
named ctx name r =
    r.tenant_id == ctx.tenant_id && (r.application_id == ctx.application_id && r.name == name)

abbrev pub of_context : Context → Assignment → Bool
of_context ctx a =
    a.user_id == ctx.user_id
    && (a.tenant_id == ctx.tenant_id && a.application_id == ctx.application_id)

abbrev pub of_role : Context → ℕ → Assignment → Bool
of_role ctx role a = of_context ctx a && a.role_id == role

abbrev pub includes : ℕ → List ℕ → Bool
includes x = any (λ y. y == x)

abbrev pub flat_map : {A : Type 0} → (A → List ℕ) → List A → List ℕ
flat_map f [] = []
flat_map f (x ∷ xs) = f x ++ flat_map f xs

abbrev pub is_empty : List ℕ → Bool
is_empty [] = true
is_empty (x ∷ xs) = false

module _ (db : Store) (cache : Cache) where
  abbrev pub assign_found :
      Context → (now : ℕ) → Option RoleDoc → World cache → Assigned × World cache
  assign_found ctx now none w = (role_not_found, w)
  assign_found ctx now (some role) w =
      let (doc, l) =
        db.assignments.find_one_and_upsert (of_role ctx role.id) (λ a. a)
          (record {
            user_id = ctx.user_id;
            tenant_id = ctx.tenant_id;
            application_id = ctx.application_id;
            role_id = role.id;
            assigned_at = now;
          })
          w.assignments in
      (
        assigned,
        record w {
          assignments = l;
          accounts = invalidate_user_tokens db.users cache ctx.user_id w.accounts;
        },
      )

  pub assign_role : Context → (role_name now : ℕ) → World cache → Assigned × World cache
  assign_role ctx role_name now w =
      assign_found ctx now (db.roles.find_one (named ctx role_name) w.roles) w

  abbrev pub remove_found : Context → Option RoleDoc → World cache → World cache
  remove_found ctx none w = w
  remove_found ctx (some role) w = record w {
    assignments = db.assignments.delete_one (of_role ctx role.id) w.assignments;
    accounts = invalidate_user_tokens db.users cache ctx.user_id w.accounts;
  }

  pub remove_role : Context → (role_name : ℕ) → World cache → World cache
  remove_role ctx role_name w = remove_found ctx (db.roles.find_one (named ctx role_name) w.roles) w

  pub get_user_roles : Context → World cache → List RoleDoc
  get_user_roles ctx w =
      let role_ids = map (λ a. a.role_id) (db.assignments.find (of_context ctx) w.assignments) in
      if is_empty role_ids then [] else db.roles.find (λ r. includes r.id role_ids) w.roles

  pub get_user_permissions : Context → World cache → List ℕ
  get_user_permissions ctx w =
      let permission_ids = flat_map (λ r. r.permission_ids) (get_user_roles ctx w) in
      if is_empty permission_ids
      then []
      else map (λ p. p.name)
          (db.permissions.find
            (λ p.
              includes p.id permission_ids
              && (p.tenant_id == ctx.tenant_id && p.application_id == ctx.application_id))
            w.permissions)

  pub has_role : Context → (role_name : ℕ) → World cache → Bool
  has_role ctx role_name w = any (λ r. r.name == role_name) (get_user_roles ctx w)

  pub has_permission : Context → (permission : ℕ) → World cache → Bool
  has_permission ctx permission w = includes permission (get_user_permissions ctx w)

  -- `policy` is the engine that was set, if any.
  pub can : Option (Request → Bool) → Request → (permission : ℕ) → World cache → Bool
  can none r permission w = has_permission r.context permission w
  can (some policy) r permission w =
      if policy r then has_permission r.context permission w else false

  pub build_identity_context :
      Context → (session_id auth_method now : ℕ) → World cache → IdentityContext
  build_identity_context ctx session_id auth_method now w = record {
    user_id = ctx.user_id;
    tenant_id = ctx.tenant_id;
    application_id = ctx.application_id;
    session_id = session_id;
    roles = map (λ r. r.name) (get_user_roles ctx w);
    permissions = get_user_permissions ctx w;
    auth_method = auth_method;
    authenticated_at = now;
  }

  -- `hasAll` of the permission service.
  pub has_all : Context → List ℕ → World cache → Bool
  has_all ctx [] w = true
  has_all ctx (permission ∷ permissions) w =
      let rest = has_all ctx permissions w in
      if has_permission ctx permission w then rest else false
