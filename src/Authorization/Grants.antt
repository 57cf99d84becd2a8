-- ===== src/Authorization/Grants.antt =====
-- What the chain of look-ups grants, against the definition of a grant.
use pezhwan.Base.{
  ℕ, ◌≡◌, ◌∙◌, refl, ap, Bool, true, false, ◌&&◌, ◌||◌, List, [], ◌∷◌, ◌++◌, map, Option, none,
  some, ◌==◌, any, filter, arith, inl, inr, Bool-cases,
}
use pezhwan.Cache.{Cache}
use pezhwan.Authorization.{
  RoleDoc, PermissionDoc, Context, Request, World, Store, of_context, includes, flat_map, is_empty,
  get_user_roles, get_user_permissions, has_permission, can,
}
use pezhwan.Mongo.{list_collection, IsCollection, list_collection_unique}

includes-append : (x : ℕ) (l m : List ℕ) → includes x (l ++ m) ≡ (includes x l || includes x m)
includes-append x [] m = refl
includes-append x (y ∷ l) m = ground (arith, includes-append x l m)

module _ {A : Type 0} where
  pub any-filter : (p q : A → Bool) (l : List A) → any p (filter q l) ≡ any (λ x. q x && p x) l
  any-filter p q [] = refl
  any-filter p q (x ∷ l) = ground (arith, any-filter p q l)

  pub includes-map : (f : A → ℕ) (x : ℕ) (l : List A) → includes x (map f l) ≡ any (λ a. f a == x) l
  includes-map f x [] = refl
  includes-map f x (a ∷ l) = ground (arith, includes-map f x l)

  includes-flat_map :
      (f : A → List ℕ) (x : ℕ) (l : List A)
      → includes x (flat_map f l) ≡ any (λ a. includes x (f a)) l
  includes-flat_map f x [] = refl
  includes-flat_map f x (a ∷ l) =
      ground (arith, includes-append x (f a) (flat_map f l), includes-flat_map f x l)

  pub any-cong : (p q : A → Bool) → ((a : A) → p a ≡ q a) → (l : List A) → any p l ≡ any q l
  any-cong p q h [] = refl
  any-cong p q h (x ∷ l) = ground (arith, h x, any-cong p q h l)

  pub any-never : (p : A → Bool) → ((a : A) → p a ≡ false) → (l : List A) → any p l ≡ false
  any-never p h [] = refl
  any-never p h (x ∷ l) = ground (arith, h x, any-never p h l)

includes_empty : (x : ℕ) (l : List ℕ) → is_empty l ≡ true → includes x l ≡ false
includes_empty x [] e = refl
includes_empty x (y ∷ l) e = ground arith

-- A user holds a role by an assignment in the context, and a permission by a role that is held; the
-- permission is one of the context's.
abbrev pub holds_role : {cache : Cache} → Context → World cache → RoleDoc → Bool
holds_role ctx w r = any (λ a. of_context ctx a && (a.role_id == r.id)) w.assignments

abbrev pub grants : {cache : Cache} → Context → World cache → PermissionDoc → Bool
grants ctx w p =
    (p.tenant_id == ctx.tenant_id && p.application_id == ctx.application_id)
    && any (λ r. holds_role ctx w r && includes p.id r.permission_ids) w.roles

abbrev pub list_store : Store
list_store = record {
  users = list_collection;
  roles = list_collection;
  assignments = list_collection;
  permissions = list_collection;
}

module _ (cache : Cache) (ctx : Context) (w : World cache) where
  pub any-roles :
      (p : RoleDoc → Bool)
      → any p (get_user_roles list_store cache ctx w) ≡ any (λ r. holds_role ctx w r && p r) w.roles
  unfolding get_user_roles
  any-roles p =
      let ids = map (λ a. a.role_id) (filter (of_context ctx) w.assignments) in
      let held : (r : RoleDoc) → includes r.id ids ≡ holds_role ctx w r = λ r.
        includes-map (λ a. a.role_id) r.id (filter (of_context ctx) w.assignments)
        ∙ any-filter (λ a. a.role_id == r.id) (of_context ctx) w.assignments in
      let all_ids =
        any-filter p (λ r. includes r.id ids) w.roles
        ∙ any-cong (λ r. includes r.id ids && p r) (λ r. holds_role ctx w r && p r)
            (λ r. ap (λ b. b && p r) (held r)) w.roles in
      elim (Bool-cases (is_empty ids)) [
        | inl out ↦
            let never =
              any-never (λ r. holds_role ctx w r && p r)
                (λ r. let e = held r in let z = includes_empty r.id ids out in ground arith)
                w.roles in
            ground (arith, never)
        | inr some_ids ↦ ground (arith, all_ids)
      ]

  permissions-granted :
      (permission : ℕ)
      → has_permission list_store cache ctx permission w
        ≡ any (λ p. grants ctx w p && (p.name == permission)) w.permissions
  unfolding has_permission get_user_permissions
  permissions-granted permission =
      let held = get_user_roles list_store cache ctx w in
      let ids = flat_map (λ r. r.permission_ids) held in
      let reach : (p : PermissionDoc)
          → includes p.id ids
            ≡ any (λ r. holds_role ctx w r && includes p.id r.permission_ids) w.roles =
        λ p.
          includes-flat_map (λ r. r.permission_ids) p.id held
          ∙ any-roles (λ r. includes p.id r.permission_ids) in
      let scoped : PermissionDoc → Bool = λ p.
        includes p.id ids
        && (p.tenant_id == ctx.tenant_id && p.application_id == ctx.application_id) in
      let all_ids =
        includes-map (λ p. p.name) permission (filter scoped w.permissions)
        ∙ (any-filter (λ p. p.name == permission) scoped w.permissions
            ∙ any-cong (λ p. scoped p && (p.name == permission))
                (λ p. grants ctx w p && (p.name == permission))
                (λ p. let e = reach p in ground arith) w.permissions) in
      elim (Bool-cases (is_empty ids)) [
        | inl out ↦
            let never =
              any-never (λ p. grants ctx w p && (p.name == permission))
                (λ p. let e = reach p in let z = includes_empty p.id ids out in ground arith)
                w.permissions in
            ground (arith, never)
        | inr some_ids ↦ ground (arith, all_ids)
      ]

-- The laws of a store: each collection is one.
pub record IsStore (db : Store) : Type 0 where
  pub users_law : IsCollection db.users
  pub roles_law : IsCollection db.roles
  pub assignments_law : IsCollection db.assignments
  pub permissions_law : IsCollection db.permissions

pub list_store_unique : (db : Store) → IsStore db → list_store ≡ db
list_store_unique db laws i = record {
  users = list_collection_unique db.users laws.users_law i;
  roles = list_collection_unique db.roles laws.roles_law i;
  assignments = list_collection_unique db.assignments laws.assignments_law i;
  permissions = list_collection_unique db.permissions laws.permissions_law i;
}

-- The chain of look-ups decides the grants: a request is allowed exactly where the policy engine, if
-- one is set, allows it, and some permission of the context has the name and is carried by a role that
-- an assignment in the context gives to the user.
pub can-grants :
    (db : Store) (laws : IsStore db) (cache : Cache) (policy : Option (Request → Bool))
    (r : Request) (permission : ℕ) (w : World cache)
    → can db cache policy r permission w ≡ (
        elim policy [ none ↦ true | some allows ↦ allows r ]
        && any (λ p. grants r.context w p && (p.name == permission)) w.permissions)
unfolding can
can-grants db laws cache none r permission w =
    rw (← list_store_unique db laws) (permissions-granted cache r.context w permission)
can-grants db laws cache (some allows) r permission w =
    rw (← list_store_unique db laws)
      (let e = permissions-granted cache r.context w permission in ground arith)
