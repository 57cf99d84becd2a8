-- ===== src/Otp.antt =====
-- packages/core/src/services/otp.service.ts: one-time codes that are sent by mail or SMS, with a
-- resend cooldown and a budget of failed attempts. `verifyOtp` of packages/crypto/src/otp.ts is the
-- comparison of hashes. The channel and the lower-cased target are one number in the cache's keys.
pub mod Budget
pub mod Codes
mod Tests
use pezhwan.Base.{
  ℕ, zero, suc, ◌+◌, ◌-◌, ◌*◌, ◌/◌, ◌≡◌, Bool, true, false, ◌&&◌, List, ◌∷◌, Option, none, some,
  ◌==◌, ltb, leb, if◌then◌else◌, max,
}
use pezhwan.Cache.{Key, Value, num, to_number, number_or_zero, Cache}
use pezhwan.Mongo.{Collection}

pub data Channel : Type 0 where
  email phone : Channel

pub record OtpDoc : Type 0 where
  pub id : ℕ
  pub tenant_id : ℕ
  pub application_id : ℕ
  pub purpose : ℕ
  pub channel : Channel
  pub target : ℕ
  pub code_hash : ℕ
  pub expires_at : ℕ
  pub consumed : Bool
  pub attempts : ℕ

-- The service's options; `has_sms` is whether `delivery.sendSms` is given.
pub record Options : Type 1 where
  pub cache : Cache
  pub hash : ℕ → ℕ
  pub tenant_id : ℕ
  pub application_id : ℕ
  pub has_sms : Bool
  pub ttl_ms : ℕ
  pub max_attempts : ℕ
  pub resend_cooldown_ms : ℕ
  pub attempts_window_ms : ℕ

pub data Message : Type 0 where
  sent : Channel → (target code purpose : ℕ) → Message

-- `sent_messages` is what the delivery adapters were called with, the latest first.
pub record World (options : Options) : Type 0 where
  pub otps : List OtpDoc
  pub cached : options.cache.State
  pub sent_messages : List Message

pub data RequestResult : Type 0 where
  accepted : (retry_after_seconds : Option ℕ) → RequestResult
  phone_otp_unsupported : RequestResult

pub data VerifyResult : Type 0 where
  verified : VerifyResult
  expired invalid exhausted : VerifyResult

pub record Request : Type 0 where
  pub channel : Channel
  pub target : ℕ
  pub purpose : ℕ

abbrev pub channel_eq : Channel → Channel → Bool
channel_eq email email = true
channel_eq phone phone = true
channel_eq _ _ = false

abbrev pub channel_number : Channel → ℕ
channel_number email = 0
channel_number phone = 1

abbrev pub cooldown_key : Request → Key
cooldown_key r = record { space = 2 + channel_number r.channel; id = r.target }

abbrev pub attempts_key : Request → Key
attempts_key r = record { space = 4 + channel_number r.channel; id = r.target }

-- `Math.ceil(ms / 1000)`.
abbrev pub ceil_seconds : ℕ → ℕ
ceil_seconds ms = (ms + 999) / 1000

-- The milliseconds that a cached deadline leaves, 0 for none.
abbrev pub remaining : Option Value → ℕ → ℕ
remaining none now = 0
remaining (some v) now = to_number v - now

abbrev pub by_id : ℕ → OtpDoc → Bool
by_id i d = d.id == i

module _ (options : Options) where
  abbrev pub of_request : Request → OtpDoc → Bool
  of_request r d =
      d.tenant_id == options.tenant_id
      && (d.application_id == options.application_id
          && (d.purpose == r.purpose && (channel_eq d.channel r.channel && d.target == r.target)))

  abbrev pub renewed : ℕ → ℕ → OtpDoc → OtpDoc
  renewed code now d = record d {
    code_hash = options.hash code;
    expires_at = now + options.ttl_ms;
    consumed = false;
  }

  abbrev pub first_code : Request → (id code now : ℕ) → OtpDoc
  first_code r id code now = record {
    id = id;
    tenant_id = options.tenant_id;
    application_id = options.application_id;
    purpose = r.purpose;
    channel = r.channel;
    target = r.target;
    code_hash = options.hash code;
    expires_at = now + options.ttl_ms;
    consumed = false;
    attempts = 0;
  }

  abbrev pub deliver : Request → ℕ → World options → RequestResult × World options
  deliver r code w = elim r.channel [
    | email ↦ (
      accepted none,
      record w { sent_messages = sent email r.target code r.purpose ∷ w.sent_messages },
    )
    | phone ↦
        if options.has_sms
        then (
          accepted none,
          record w { sent_messages = sent phone r.target code r.purpose ∷ w.sent_messages },
        )
        else (phone_otp_unsupported, w)
  ]

module _ (db : Collection OtpDoc) (options : Options) where
  pub issue : Request → (id code now : ℕ) → World options → RequestResult × World options
  issue r id code now w =
      let (doc, otps) =
        db.find_one_and_upsert (of_request options r) (renewed options code now)
          (first_code options r id code now) w.otps in
      deliver options r code (record w {
        otps = otps;
        cached =
            options.cache.set (cooldown_key r) (num (now + options.resend_cooldown_ms))
              (ceil_seconds options.resend_cooldown_ms) now w.cached;
      })

  pub request_otp : Request → (id code now : ℕ) → World options → RequestResult × World options
  unfolding issue
  request_otp r id code now w =
      let (cooldown, s) = options.cache.get (cooldown_key r) now w.cached in
      if ltb 0 (remaining cooldown now)
      then (accepted (some (ceil_seconds (remaining cooldown now))), record w { cached = s })
      else let (attempts, s') = options.cache.get (attempts_key r) now s in
        if leb options.max_attempts (number_or_zero attempts)
        then (accepted (some (ceil_seconds options.attempts_window_ms)), record w { cached = s' })
        else issue r id code now (record w { cached = s' })

  abbrev pub failed : Request → (attempts now : ℕ) → OtpDoc → World options → World options
  failed r attempts now d w = record w {
    otps = db.update_one (by_id d.id) (λ x. record x { attempts = x.attempts + 1 }) w.otps;
    cached =
        options.cache.set (attempts_key r) (num (attempts + 1))
          (ceil_seconds options.attempts_window_ms) now w.cached;
  }

  abbrev pub succeeded : Request → OtpDoc → World options → World options
  succeeded r d w = record w {
    otps =
        db.update_one (by_id d.id) (λ x. record x { consumed = true; attempts = d.attempts + 1 })
          w.otps;
    cached = options.cache.del (cooldown_key r) (options.cache.del (attempts_key r) w.cached);
  }

  unfoldable pub judged :
      Request
      → (code attempts now : ℕ) → Option OtpDoc
      → World options
      → VerifyResult × World options
  judged r code attempts now none w = (expired, w)
  judged r code attempts now (some d) w =
      if ltb d.expires_at now
      then (expired, w)
      else if d.consumed
      then (expired, w)
      else if options.hash code == d.code_hash
      then (verified, succeeded r d w)
      else (invalid, failed r attempts now d w)

  unfoldable pub verify_otp :
      Request → (code now : ℕ) → World options → VerifyResult × World options
  unfolding judged
  verify_otp r code now w =
      let (attempts, s) = options.cache.get (attempts_key r) now w.cached in
      if leb options.max_attempts (number_or_zero attempts)
      then (exhausted, record w { cached = s })
      else judged r code (number_or_zero attempts) now (db.find_one (of_request options r) w.otps)
          (record w { cached = s })
