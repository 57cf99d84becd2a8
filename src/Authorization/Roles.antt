-- ===== src/Authorization/Roles.antt =====
-- A change of roles takes effect: on the roles that are read, and on the tokens that were minted.
use pezhwan.Base.{
  ℕ, ◌+◌, ◌≤◌, ◌≡◌, ◌∙◌, refl, ap, Bool, true, false, not, ◌&&◌, ◌||◌, List, [], ◌∷◌, ◌++◌, some,
  ◌==◌, any, all, find, count, remove_first, update_first, arith, inl, inr, Bool-cases,
  Option-cases, ==_iff, ==_refl, find-passes,
}
use pezhwan.Cache.{Cache, IsCache}
use pezhwan.AccountState.{UserDoc, by_id, validate, answered, invalidate_user_tokens}
use pezhwan.AccountState.Validity.{bumped_validates}
use pezhwan.Authorization.{
  RoleDoc, Assignment, Context, World, Store, of_role, named, has_role, assign_role, remove_role,
}
use pezhwan.Authorization.Grants.{any-roles, holds_role, list_store, list_store_unique, IsStore}
use pezhwan.Mongo.{list_collection, list_collection-IsCollection}

module _ {A : Type 0} where
  any-found :
      (p q : A → Bool) (l : List A) (x : A) → find p l ≡ some x → q x ≡ true → any q l ≡ true
  any-found p q [] x e t = ground arith
  any-found p q (y ∷ l) x e t = ground (arith, any-found p q l x)

  any-last : (q : A → Bool) (l : List A) (x : A) → q x ≡ true → any q (l ++ x ∷ []) ≡ true
  any-last q [] x t = ground arith
  any-last q (y ∷ l) x t = ground (arith, any-last q l x t)

  update_first-same : (p : A → Bool) (l : List A) → update_first p (λ a. a) l ≡ l
  update_first-same p [] = refl
  update_first-same p (y ∷ l) = ground (arith, update_first-same p l)

  any-count : (p : A → Bool) (l : List A) → count p l ≡ 0 → any p l ≡ false
  any-count p [] e = refl
  any-count p (y ∷ l) e = ground (arith, any-count p l)

  any-remove_first : (p : A → Bool) (l : List A) → count p l ≤ 1 → any p (remove_first p l) ≡ false
  any-remove_first p [] one = refl
  any-remove_first p (y ∷ l) one = ground (arith, any-remove_first p l, any-count p l)

  any-remove_first_mono :
      (p q : A → Bool) (l : List A) → any p l ≡ false → any p (remove_first q l) ≡ false
  any-remove_first_mono p q [] e = refl
  any-remove_first_mono p q (y ∷ l) e = ground (arith, any-remove_first_mono p q l)

  any-all :
      (h q : A → Bool) (l : List A)
      → all h l ≡ true
      → ((x : A) → h x ≡ true → q x ≡ false)
      → any q l ≡ false
  any-all h q [] e f = refl
  any-all h q (y ∷ l) e f = ground (arith, any-all h q l, f y)

-- No other role of the name is held.
abbrev pub is_only : {cache : Cache} → Context → World cache → ℕ → ℕ → RoleDoc → Bool
is_only ctx w name role r = not (holds_role ctx w r && (r.name == name)) || (r.id == role)

module _ (cache : Cache) (ctx : Context) (name : ℕ) (w : World cache) (role : RoleDoc) where
  role-named : find (named ctx name) w.roles ≡ some role → role.name == name ≡ true
  role-named e = ground (arith, find-passes (named ctx name) w.roles {x = role} e)

  held_after :
      (now : ℕ)
      → find (named ctx name) w.roles ≡ some role
      → (holds_role ctx (assign_role list_store cache ctx name now w).1 role ≡ true)
        × ((assign_role list_store cache ctx name now w).1.roles ≡ w.roles)
  unfolding assign_role
  held_after now e =
      let p = of_role ctx role.id in
      let fresh : Assignment = record {
        user_id = ctx.user_id;
        tenant_id = ctx.tenant_id;
        application_id = ctx.application_id;
        role_id = role.id;
        assigned_at = now;
      } in
      let self : p fresh ≡ true = ground (
        arith,
        ==_refl ctx.user_id,
        ==_refl ctx.tenant_id,
        ==_refl ctx.application_id,
        ==_refl role.id,
      ) in
      elim (Option-cases (find p w.assignments)) [
        | inl out ↦ (ground (arith, any-last p w.assignments fresh self), ground arith)
        | inr (a, f) ↦ (
          ground (
            arith,
            update_first-same p w.assignments,
            any-found p p w.assignments a f (find-passes p w.assignments {x = a} f),
          ),
          ground arith,
        )
      ]

  assigned_list :
      (now : ℕ)
      → find (named ctx name) w.roles ≡ some role
      → has_role list_store cache ctx name (assign_role list_store cache ctx name now w).1 ≡ true
  unfolding has_role
  assigned_list now e =
      let w' = (assign_role list_store cache ctx name now w).1 in
      let whole = any-roles cache ctx w' (λ r. r.name == name) in
      let (held, same) = held_after now e in
      let n = role-named e in
      whole
      ∙ any-found (named ctx name) (λ r. holds_role ctx w' r && (r.name == name)) w'.roles role
          (ap (find (named ctx name)) same ∙ e) (ground (arith, held, n))

  removed_each :
      (r : RoleDoc)
      → find (named ctx name) w.roles ≡ some role
      → count (of_role ctx role.id) w.assignments ≤ 1
      → is_only ctx w name role.id r ≡ true
      → (holds_role ctx (remove_role list_store cache ctx name w) r && (r.name == name)) ≡ false
  unfolding remove_role
  removed_each r e one only = elim (Bool-cases (r.id == role.id)) [
    | inl same ↦
        let id_eq = (==_iff r.id role.id).0 same in
        let gone = any-remove_first (of_role ctx role.id) w.assignments one in
        rw id_eq (ground (arith, gone))
    | inr other ↦
        let kept = any-remove_first_mono (of_role ctx r.id) (of_role ctx role.id) w.assignments in
        ground (arith, kept)
  ]

  removed_rest :
      find (named ctx name) w.roles ≡ some role
      → ((remove_role list_store cache ctx name w).roles ≡ w.roles)
        × ((remove_role list_store cache ctx name w).accounts
            ≡ invalidate_user_tokens list_collection cache ctx.user_id w.accounts)
  unfolding remove_role
  removed_rest e = (ground arith, ground arith)

  assigned_accounts :
      (now : ℕ)
      → find (named ctx name) w.roles ≡ some role
      → (assign_role list_store cache ctx name now w).1.accounts
        ≡ invalidate_user_tokens list_collection cache ctx.user_id w.accounts
  unfolding assign_role
  assigned_accounts now e = ground arith

  removed_list :
      find (named ctx name) w.roles ≡ some role
      → count (of_role ctx role.id) w.assignments ≤ 1
      → all (is_only ctx w name role.id) w.roles ≡ true
      → has_role list_store cache ctx name (remove_role list_store cache ctx name w) ≡ false
  unfolding has_role
  removed_list e one only =
      let w' = remove_role list_store cache ctx name w in
      let whole = any-roles cache ctx w' (λ r. r.name == name) in
      let none_left =
        any-all (is_only ctx w name role.id) (λ r. holds_role ctx w' r && (r.name == name)) w.roles
          only (λ r h. removed_each r e one h) in
      whole ∙ ap (any (λ r. holds_role ctx w' r && (r.name == name))) (removed_rest e).0 ∙ none_left

module _ (db : Store) (laws : IsStore db) (cache : Cache) (memory : IsCache cache) (ctx : Context)
    (name now version : ℕ) (w : World cache) (role : RoleDoc) (d : UserDoc) where
  -- Granting a role takes effect at once: the user has the role, and of the access tokens that are
  -- presented next only those of the bumped version pass. The role exists in the context, and the
  -- store answers and has one account under the user's id.
  assign_role-takes_effect :
      find (named ctx name) w.roles ≡ some role
      → count (by_id ctx.user_id) w.accounts.users ≤ 1
      → find (by_id ctx.user_id) w.accounts.users ≡ some d
      → let w' = (assign_role db cache ctx name now w).1 in
        (has_role db cache ctx name w' ≡ true)
        × ((validate db.users cache ctx.user_id version true now w'.accounts).0
            ≡ answered (d.is_active && (d.token_version + 1 == version)))
  assign_role-takes_effect e single found = rw (← list_store_unique db laws) (
    assigned_list cache ctx name w role now e,
    rw (assigned_accounts cache ctx name w role now e) (
        bumped_validates list_collection list_collection-IsCollection cache memory ctx.user_id
          version now w.accounts d single found),
  )

  -- Taking a role away takes effect at once: the user no longer has it, and of the access tokens that
  -- are presented next only those of the bumped version pass. The role exists in the context, is
  -- assigned at most once, and no other role of the name is held; the store answers and has one account
  -- under the user's id.
  pub remove_role-takes_effect :
      find (named ctx name) w.roles ≡ some role
      → count (of_role ctx role.id) w.assignments ≤ 1
      → all (is_only ctx w name role.id) w.roles ≡ true
      → count (by_id ctx.user_id) w.accounts.users ≤ 1
      → find (by_id ctx.user_id) w.accounts.users ≡ some d
      → let w' = remove_role db cache ctx name w in
        (has_role db cache ctx name w' ≡ false)
        × ((validate db.users cache ctx.user_id version true now w'.accounts).0
            ≡ answered (d.is_active && (d.token_version + 1 == version)))
  remove_role-takes_effect e one only single found = rw (← list_store_unique db laws) (
    removed_list cache ctx name w role e one only,
    rw ((removed_rest cache ctx name w role e).1) (
        bumped_validates list_collection list_collection-IsCollection cache memory ctx.user_id
          version now w.accounts d single found),
  )
