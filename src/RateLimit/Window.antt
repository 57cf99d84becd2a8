-- ===== src/RateLimit/Window.antt =====
-- What a window allows, for whatever tier does the counting: `Counts` is the contract of a tier.
use pezhwan.Base.{
  ℕ, ◌+◌, ◌-◌, ◌≤◌, ◌≡◌, Bool, true, false, List, [], ◌∷◌, ltb, if◌then◌else◌, min, arith, bit,
  length,
}
use pezhwan.Mongo.{Collection}
use pezhwan.RateLimit.{Service, World, RateLimitType, Rule, decision, Counter, consume}

-- The times lie in an interval and ascend.
abbrev pub Ascending : ℕ → ℕ → List ℕ → Type 0
Ascending first last [] = Unit
Ascending first last (now ∷ more) = (first ≤ now) × ((now ≤ last) × Ascending now last more)

module _ (db : Collection Counter) (service : Service) (type : RateLimitType) (scope : ℕ)
    (up : Bool) where
  -- `holds n now w`: from `now` to the end of the window the tier has counted n requests.
  pub record Counts (rule : Rule) (last : ℕ) : Type 1 where
    pub holds : ℕ → ℕ → World service → Type 0
    pub counts :
        (n now t : ℕ) (w : World service)
        → holds n now w
        → now ≤ t
        → t ≤ last
        → ((consume db service type scope up t w).0 ≡ decision rule (n + 1))
          × holds (n + 1) t (consume db service type scope up t w).1

  -- How many of the requests that come at these times are allowed.
  abbrev pub count_allowed : List ℕ → World service → ℕ
  count_allowed [] w = 0
  count_allowed (now ∷ more) w =
      bit (consume db service type scope up now w).0.allowed
      + count_allowed more (consume db service type scope up now w).1

  pub decision-allowed :
      (rule : Rule) (n : ℕ) → (decision rule n).allowed ≡ (if ltb rule.limit n then false else true)
  unfolding decision
  decision-allowed rule n = ground arith

  pub allowed_exactly :
      (rule : Rule) (last : ℕ) (tier : Counts rule last) (n first : ℕ) (times : List ℕ)
      (w : World service)
      → Ascending first last times
      → tier.holds n first w
      → count_allowed times w ≡ min (length times) (rule.limit - n)
  allowed_exactly rule last tier n first [] w order holds = omega arith
  allowed_exactly rule last tier n first (now ∷ more) w (after, (before, order)) holds =
      let (told, next) = tier.counts n first now w holds after before in
      let rest = allowed_exactly rule last tier (n + 1) now more _ order next in
      let here : (consume db service type scope up now w).0.allowed
          ≡ (if ltb rule.limit (n + 1) then false else true) =
        rw told (decision-allowed rule (n + 1)) in
      ground (arith, rest)
