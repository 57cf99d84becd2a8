-- ===== src/Login/Gates.antt =====
-- Who gets tokens from the logins of packages/core/src/auth/auth.engine.ts.
use pezhwan.Base.{
  ℕ, ◌≡◌, inl, inr, Bool, true, false, Option, none, some, ◌==◌, arith, Option-cases,
}
use pezhwan.Otp
use pezhwan.Session
use pezhwan.Login.{
  UserDoc, Lookup, LoginResult, logged_in, mfa_required, Tokens, Engine, Stores, World, Attempt,
  password, email_otp, find_user, has_second_factor, login_password, login_otp, gated,
  complete_login, clear_failed_login, record_failed_login, is_locked_at, context_of, mint_tokens,
}

abbrev pub is_logged_in : LoginResult → Bool
is_logged_in (logged_in id t) = true
is_logged_in _ = false

module _ (stores : Stores) (engine : Engine) where
  abbrev pub handle : Option ℕ → Option ℕ → Lookup
  handle email phone = record { user_id = none; email = email; phone = phone }

  -- What a login by password asks of a user.
  pub record MayLogIn (user : UserDoc) (given now : ℕ) (w : World engine) : Type 0 where
    pub unlocked : is_locked_at now user.login_lock_until ≡ false
    pub hash : ℕ
    pub has_hash : user.password_hash ≡ some hash
    pub argon2 : engine.is_argon2_hash hash ≡ true
    pub right : engine.verify_password given hash ≡ true
    pub active : user.is_active ≡ true
    pub no_second_factor : has_second_factor stores engine user w ≡ false

  gated-second_factor :
      (user : UserDoc) (a : Attempt) (w : World engine)
      → has_second_factor stores engine user w ≡ true
      → gated stores engine user email_otp a w ≡ (mfa_required user.id, w)
  unfolding gated
  gated-second_factor user a w on = ground arith

  -- Tokens for a password: where a login by password answers with tokens, the user that the handles
  -- find is not locked and is active, the password is right for the stored hash, and no second factor
  -- is asked for; the tokens are those of a new session of that user.
  pub login_password-asks :
      (email phone : Option ℕ) (given : ℕ) (a : Attempt) (w : World engine) (id : ℕ) (t : Tokens)
      → (login_password stores engine email phone given a w).0 ≡ logged_in id t
      → (user : UserDoc) × ((find_user stores engine (handle email phone) w ≡ some user)
          × (MayLogIn user given a.fresh.now w
              × ((complete_login stores engine user password a
                    (clear_failed_login stores engine user w)).0
                  ≡ logged_in id t)))
  unfolding login_password gated clear_failed_login
  login_password-asks email phone given a w id t done =
      elim (Option-cases (find_user stores engine (handle email phone) w)) [
        | inl out ↦ ground arith
        | inr (user, e) ↦ elim (Option-cases user.password_hash) [
          | inl none_set ↦ ground arith
          | inr (hash, h) ↦ (
            user,
            (
              e,
              (
                record {
                  unlocked = ground arith;
                  hash = hash;
                  has_hash = h;
                  argon2 = ground arith;
                  right = ground arith;
                  active = ground arith;
                  no_second_factor = ground arith;
                },
                ground arith,
              ),
            ),
          )
        ]
      ]

  -- A second factor is never skipped: for a user who has it on, neither a password nor a code gets
  -- tokens, and no session is created.
  pub second_factor_gate :
      (email phone : Option ℕ) (given code : ℕ) (r : Otp.Request) (a : Attempt) (w : World engine)
      (user : UserDoc)
      → find_user stores engine (handle email phone) w ≡ some user
      → has_second_factor stores engine user w ≡ true
      → ((is_logged_in (login_password stores engine email phone given a w).0 ≡ false)
          × ((login_password stores engine email phone given a w).1.sessions ≡ w.sessions))
        × ((is_logged_in (login_otp stores engine r email phone code a w).0 ≡ false)
            × ((login_otp stores engine r email phone code a w).1.sessions ≡ w.sessions))
  unfolding login_password login_otp gated clear_failed_login record_failed_login find_user
  second_factor_gate email phone given code r a w user e on =
      ((ground arith, ground arith), (ground arith, ground arith))

  -- Whom a code logs in is not tied to the address that the code was sent to: where a code is verified
  -- and the request gives neither an address nor a number of a user, the first account of the tenant is
  -- logged in, if it is active and has no second factor.
  pub login_otp-first_account :
      (r : Otp.Request) (code : ℕ) (a : Attempt) (w : World engine) (user : UserDoc)
      → (Otp.verify_otp stores.otps engine.otp r code a.fresh.now w.otp).0 ≡ Otp.verified
      → stores.users.find_one (λ d. d.tenant_id == engine.tenant_id) w.users ≡ some user
      → user.is_active ≡ true
      → has_second_factor stores engine user w ≡ false
      → (t : Tokens) × ((login_otp stores engine r none none code a w).0 ≡ logged_in user.id t)
  unfolding login_otp gated find_user complete_login
  login_otp-first_account r code a w user good first active off =
      let o = (Otp.verify_otp stores.otps engine.otp r code a.fresh.now w.otp).1 in
      let s =
        Session.create stores.sessions engine.sessions (context_of stores engine user a) a.fresh
          w.sessions in
      let w' : World engine = record w { otp = o; sessions = s.1 } in
      (mint_tokens stores engine user s.0 a email_otp w', ground arith)
