-- ===== src/Lock/Tests.antt =====
-- A server that holds one key, as a client, and runs of the locks on it.
use pezhwan.Base.{
  ℕ, ◌+◌, ◌*◌, inl, inr, refl, Bool, true, false, ◌&&◌, List, [], ◌∷◌, Option, none, some, ◌==◌,
  ltb, if◌then◌else◌, arith, Option-cases,
}
use pezhwan.Cache.Memory.Interface.{memory_cache, new_cache}
use pezhwan.Lock.Exclusion.{Op, try', release', extend', NoneAcquires, mutual_exclusion}
use pezhwan.Lock.{Store, interpret, lock_of, Client, IsClient, World, try_acquire, ceil_seconds}

pub record Held : Type 0 where
  pub key : ℕ
  pub token : ℕ
  pub until : ℕ

abbrev live : Option Held → ℕ → ℕ → Option ℕ
live none now key = none
live (some h) now key = if h.key == key && ltb now h.until then some h.token else none

abbrev set_if : Option ℕ → Held → Option Held → Option Bool × Option Held
set_if none h s = (some true, some h)
set_if (some owner) h s = (some false, s)

abbrev del_if : Option ℕ → Option Held → ℕ × Option Held
del_if none s = (0, s)
del_if (some owner) s = (1, none)

abbrev pexpire_if : Option ℕ → (until : ℕ) → Option Held → ℕ × Option Held
pexpire_if (some owner) until (some h) = (1, some (record h { until = until }))
pexpire_if _ until s = (0, s)

abbrev one_key : Store
one_key = record {
  State = Option Held;
  stored = live;
  del = λ key now s. del_if (live s now key) s;
  pexpire = λ key ttl now s. pexpire_if (live s now key) (now + ttl) s;
}

abbrev server : Client
server = record {
  store = one_key;
  ready = λ s. true;
  has_eval = true;
  set_nx_ex = λ key token ttl now s.
      set_if (live s now key) (record { key = key; token = token; until = now + ttl * 1000 }) s;
  get = λ key now s. some (live s now key);
  eval = λ script key args now s.
      let (reply, after) = interpret one_key script key args now s in (some reply, after);
}

server-IsClient : IsClient server
server-IsClient = record {
  set_ok = λ key token ttl now s e. elim (Option-cases (live s now key)) [
    | inl free ↦ (free, λ t after before. ground arith)
    | inr (owner, taken) ↦ ground arith
  ];
  set_taken = λ key token ttl now t owner s e after. ground arith;
  get_law = λ key now s. inr refl;
  eval_law = λ script key args now s. inr refl;
}

abbrev world : World server memory_cache
world = record { redis = none; cached = new_cache 100 }

abbrev attempts_of_others : List (Op × ℕ)
attempts_of_others =
    (try' 2 5000, 200)
    ∷ (release' (lock_of 9 5000 2 100), 300)
    ∷ (extend' (lock_of 9 5000 2 100) none, 400)
    ∷ (try' 2 5000, 5099)
    ∷ []

mutual_exclusion_example :
    NoneAcquires server memory_cache 9 attempts_of_others
      (try_acquire server memory_cache true 9 1 (ceil_seconds 5000) 100 world).1
unfolding try_acquire
mutual_exclusion_example =
    mutual_exclusion server memory_cache server-IsClient 9 1 5000 100 attempts_of_others world refl
      refl
      (
        omega arith,
        (
          tt,
          (
            omega arith,
            (
              omega arith,
              (
                omega arith,
                (
                  refl,
                  (
                    omega arith,
                    (
                      omega arith,
                      (
                        omega arith,
                        (
                          refl,
                          (
                            omega arith,
                            (omega arith, (omega arith, (tt, (omega arith, (omega arith, tt))))),
                          ),
                        ),
                      ),
                    ),
                  ),
                ),
              ),
            ),
          ),
        ),
      )
