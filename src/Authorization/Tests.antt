-- ===== src/Authorization/Tests.antt =====
-- Runs of the authorization for one user, with one role that carries one permission.
use pezhwan.Base.{◌+◌, ◌≡◌, refl, true, false, ◌&&◌, List, [], ◌∷◌, none, ◌==◌, any, arith}
use pezhwan.Mongo.{list_collection, list_collection-IsCollection}
use pezhwan.Cache.Memory.Interface.{memory_cache, memory_cache-IsCache, new_cache}
use pezhwan.AccountState.{UserDoc, validate, answered}
use pezhwan.Authorization.Grants.{grants, list_store, IsStore, can-grants}
use pezhwan.Authorization.Roles.{remove_role-takes_effect}
use pezhwan.Authorization.{
  RoleDoc, Assignment, PermissionDoc, Context, Request, World, can, has_role, remove_role,
}

abbrev context : Context
context = record { user_id = 7; tenant_id = 3; application_id = 4 }

abbrev editor : RoleDoc
editor = record { id = 1; tenant_id = 3; application_id = 4; name = 20; permission_ids = 5 ∷ [] }

abbrev write : PermissionDoc
write = record { id = 5; tenant_id = 3; application_id = 4; name = 30 }

abbrev is_editor : Assignment
is_editor = record { user_id = 7; tenant_id = 3; application_id = 4; role_id = 1; assigned_at = 50 }

abbrev account' : UserDoc
account' = record { id = 7; is_active = true; token_version = 5 }

abbrev with_assignments : List Assignment → World memory_cache
with_assignments l = record {
  roles = editor ∷ [];
  assignments = l;
  permissions = write ∷ [];
  accounts = record { users = account' ∷ []; cached = new_cache 100 };
}

abbrev request : Request
request = record { context = context; resource = none; action = none; resource_id = none }

list_store-IsStore : IsStore list_store
list_store-IsStore = record {
  users_law = list_collection-IsCollection;
  roles_law = list_collection-IsCollection;
  assignments_law = list_collection-IsCollection;
  permissions_law = list_collection-IsCollection;
}

remove_role-takes_effect_example :
    (has_role list_store memory_cache context 20
        (remove_role list_store memory_cache context 20 (with_assignments (is_editor ∷ [])))
      ≡ false)
    × ((validate list_collection memory_cache 7 6 true 100
          (remove_role list_store memory_cache context 20
            (with_assignments (is_editor ∷ []))).accounts).0
        ≡ answered (true && (5 + 1 == 6)))
remove_role-takes_effect_example =
    remove_role-takes_effect list_store list_store-IsStore memory_cache memory_cache-IsCache context
      20 100 6 (with_assignments (is_editor ∷ [])) editor account' refl (omega arith) refl
      (omega arith) refl

can-grants_example :
    can list_store memory_cache none request 30 (with_assignments (is_editor ∷ [])) ≡ (
      true
      && any
          (λ p. grants context (with_assignments (is_editor ∷ [])) p && (p.name == 30))
          (write ∷ []))
can-grants_example =
    can-grants list_store list_store-IsStore memory_cache none request 30
      (with_assignments (is_editor ∷ []))
