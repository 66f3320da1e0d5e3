-- ===== src/Realtime/ConnectLimit/Windows.antt =====
-- How many connections of an address are admitted.
use nestjs_app.Prelude.{
  ℕ, suc, ◌+◌, ◌*◌, ◌-◌, ◌<◌, min, ◌≡◌, refl, ap, ◌∙◌, String, Bool, true, false, Option, none,
  some, List, [], ◌∷◌, arith, ltb, ◌==◌, if◌then◌else◌, length, All,
}
use nestjs_app.Result.{Result, ok, err, Exception, continue, pure, ◌>>◌}
use nestjs_app.Realtime.ConnectLimit.{
  Counters, Admission, admitted, refused, connect_key, connect_rate_window_seconds, expire_first,
  count_connection, check_connect_rate_limit, connect, or_allow,
}

-- A counter, and when it expires.
pub record Counter : Type 0 where
  pub count : ℕ
  pub expiry : Option ℕ

abbrev pub is_live : ℕ → Option ℕ → Bool
is_live now none = true
is_live now (some expiry) = ltb now expiry

abbrev pub count_at : ℕ → Option Counter → ℕ
count_at now none = 0
count_at now (some c) = if is_live now c.expiry then c.count else 0

abbrev pub expiry_at : ℕ → Option Counter → Option ℕ
expiry_at now none = none
expiry_at now (some c) = if is_live now c.expiry then c.expiry else none

abbrev pub expiring : ℕ → Option Counter → Option Counter
expiring expiry none = none
expiring expiry (some c) = some (record c { expiry = some expiry })

-- What the documentation of Redis says of INCR and EXPIRE on a key, while INCR answers.
pub record IsCounters (redis : Counters) : Type 1 where
  pub held : String → redis.State → Option Counter
  pub incr_lem :
      (now : ℕ) (key : String) (s : redis.State)
      → (redis.incr now key s).0 ≡ ok (suc (count_at now (held key s)))
  pub held-incr :
      (now : ℕ) (key : String) (s : redis.State)
      → held key (redis.incr now key s).1
        ≡ some (record {
          count = suc (count_at now (held key s));
          expiry = expiry_at now (held key s);
        })
  pub held-expire :
      (now : ℕ) (key : String) (seconds : ℕ) (s : redis.State)
      → (redis.expire now key seconds s).0 ≡ ok tt
      → held key (redis.expire now key seconds s).1 ≡ expiring (now + seconds * 1000) (held key s)
  pub held-expire_failed :
      (now : ℕ) (key : String) (seconds : ℕ) (s : redis.State) (e : Exception)
      → (redis.expire now key seconds s).0 ≡ err e
      → held key (redis.expire now key seconds s).1 ≡ held key s

abbrev pub one_if_admitted : Admission → ℕ
one_if_admitted admitted = 1
one_if_admitted (refused message) = 0

module _ (redis : Counters) (laws : IsCounters redis) where
  open laws use {held}

  -- How many connections of an address, at the given times, are admitted.
  abbrev pub admits : (limit : ℕ) → String → List ℕ → redis.State → ℕ
  admits limit address [] s = 0
  admits limit address (now ∷ times) s =
      one_if_admitted (connect redis limit now address s).0
      + admits limit address times (connect redis limit now address s).1

  abbrev verdict : (limit current : ℕ) → Admission
  verdict limit current =
      if ltb limit current then refused "Connection rate limit exceeded" else admitted

  abbrev after_incr : (limit now : ℕ) → String → Result ℕ × redis.State → Admission × redis.State
  after_incr limit now key r = or_allow redis (
      continue r.0 (λ current. expire_first redis now key current >> pure (verdict limit current))
        r.1)

  connect-after :
      (limit now : ℕ) (address : String) (s : redis.State)
      → 0 < limit
      → connect redis limit now address s
        ≡ after_incr limit now (connect_key address) (redis.incr now (connect_key address) s)
  unfolding connect check_connect_rate_limit count_connection
  connect-after limit now address s positive =
      let test : (limit == 0) ≡ false = ground arith in rw test refl

  counted_again :
      (limit now : ℕ) (key : String) (n : ℕ) (r : Result ℕ × redis.State)
      → r.0 ≡ ok (suc (suc n))
      → after_incr limit now key r ≡ (verdict limit (suc (suc n)), r.1)
  unfolding expire_first
  counted_again limit now key n (ok c, s) e =
      let same : c ≡ suc (suc n) = ground arith in
      let test : (suc (suc n) == 1) ≡ false = ground arith in rw (same, test) refl
  counted_again limit now key n (err x, s) e = absurd (ground arith)

  -- A connection that is not the first of its window.
  connect-counted :
      (limit now : ℕ) (address : String) (s : redis.State) (n : ℕ) (expiry : Option ℕ)
      → held (connect_key address) s ≡ some (record { count = suc n; expiry = expiry })
      → is_live now expiry ≡ true
      → 0 < limit
      → ((connect redis limit now address s).0 ≡ verdict limit (suc (suc n)))
        × (held (connect_key address) (connect redis limit now address s).1
            ≡ some (record { count = suc (suc n); expiry = expiry }))
  connect-counted limit now address s n expiry e live positive =
      let key = connect_key address in
      let counted : count_at now (held key s) ≡ suc n = rw (e, live) refl in
      let kept : expiry_at now (held key s) ≡ expiry = rw (e, live) refl in
      let answered : (redis.incr now key s).0 ≡ ok (suc (suc n)) =
        laws.incr_lem now key s ∙ ap (λ c. ok (suc c)) counted in
      let stored : held key (redis.incr now key s).1
          ≡ some (record { count = suc (suc n); expiry = expiry }) =
        laws.held-incr now key s ∙ rw (counted, kept) refl in
      rw
        (
          connect-after limit now address s positive,
          counted_again limit now key n (redis.incr now key s) answered,
        )
        (refl, stored)

  admits-counted :
      (limit : ℕ) (address : String) (times : List ℕ) (s : redis.State) (n : ℕ) (expiry : Option ℕ)
      → held (connect_key address) s ≡ some (record { count = suc n; expiry = expiry })
      → All (λ now. is_live now expiry ≡ true) times
      → 0 < limit
      → admits limit address times s ≡ min (length times) (limit - suc n)
  admits-counted limit address [] s n expiry e h positive = omega arith
  admits-counted limit address (now ∷ times) s n expiry e (p, h) positive =
      let (answered, next) = connect-counted limit now address s n expiry e p positive in
      rw
        (
          answered,
          admits-counted limit address times (connect redis limit now address s).1 (suc n) expiry
              next h positive,
        )
        (ground arith)

  -- The first connection of a window: what its EXPIRE answers decides what is stored.
  first_counted :
      (limit now : ℕ) (key : String) (r : Result ℕ × redis.State)
      → r.0 ≡ ok 1
      → 0 < limit
      → after_incr limit now key r
        ≡ (admitted, (redis.expire now key connect_rate_window_seconds r.1).1)
  unfolding expire_first
  first_counted limit now key (ok c, s) e positive =
      let same : c ≡ 1 = ground arith in
      rw same (settled (redis.expire now key connect_rate_window_seconds s))
    where
      settled :
          (x : Result (Unit {0}) × redis.State)
          → or_allow redis (continue x.0 (λ t. pure (verdict limit 1)) x.1) ≡ (admitted, x.1)
      settled (ok t, s') = ground arith
      settled (err x, s') = refl
  first_counted limit now key (err x, s) e positive = absurd (ground arith)

  -- After the INCR of the first connection.
  first_held :
      (now : ℕ) (key : String) (s : redis.State)
      → count_at now (held key s) ≡ 0
      → ((redis.incr now key s).0 ≡ ok 1)
        × (held key (redis.incr now key s).1
            ≡ some (record { count = 1; expiry = expiry_at now (held key s) }))
  first_held now key s e =
      (laws.incr_lem now key s ∙ ap (λ c. ok (suc c)) e, laws.held-incr now key s ∙ rw e refl)

  module _ (limit start : ℕ) (address : String) (times : List ℕ) (s : redis.State) where
    abbrev first_expire : Result (Unit {0}) × redis.State
    first_expire =
        redis.expire start (connect_key address) connect_rate_window_seconds
          (redis.incr start (connect_key address) s).1

    admits-first :
        (expiry : Option ℕ)
        → count_at start (held (connect_key address) s) ≡ 0
        → held (connect_key address) first_expire.1 ≡ some (record { count = 1; expiry = expiry })
        → All (λ now. is_live now expiry ≡ true) times
        → 0 < limit
        → admits limit address (start ∷ times) s ≡ suc (min (length times) (limit - 1))
    admits-first expiry fresh stored h positive =
        let (answered, _) = first_held start (connect_key address) s fresh in
        let rest = admits-counted limit address times first_expire.1 0 expiry stored h positive in
        rw
          (
            connect-after limit start address s positive,
            first_counted limit start (connect_key address)
                (redis.incr start (connect_key address) s) answered positive,
            rest,
          )
          (omega arith)

    -- Of the connections of an address that begin within 60 seconds of the first one, as many are
    -- admitted as the limit says, if no counter was running, INCR answers and the EXPIRE of the
    -- first connection answers.
    pub admits-min :
        count_at start (held (connect_key address) s) ≡ 0
        → first_expire.0 ≡ ok tt
        → All (λ now. now < start + 60000) times
        → 0 < limit
        → admits limit address (start ∷ times) s ≡ min (suc (length times)) limit
    admits-min fresh expires h positive =
        let (_, counted) = first_held start (connect_key address) s fresh in
        let stored : held (connect_key address) first_expire.1
            ≡ some (record { count = 1; expiry = some (start + 60000) }) =
          laws.held-expire start (connect_key address) connect_rate_window_seconds _ expires
          ∙ rw counted refl in
        admits-first (some (start + 60000)) fresh stored (live_all times h) positive ∙ omega arith
      where
        live_all :
            (ts : List ℕ)
            → All (λ now. now < start + 60000) ts
            → All (λ now. is_live now (some (start + 60000)) ≡ true) ts
        live_all [] k = tt
        live_all (t ∷ ts) (p, k) = (ground arith, live_all ts k)

    -- If the EXPIRE of the first connection fails where no counter was stored, the counter never
    -- expires: of all later connections of the address, however late they begin, one less than the
    -- limit are admitted, and then none.
    pub admits_for_ever :
        {e : Exception}
        → held (connect_key address) s ≡ none
        → first_expire.0 ≡ err e
        → 0 < limit
        → admits limit address (start ∷ times) s ≡ suc (min (length times) (limit - 1))
    admits_for_ever {e} fresh fails positive =
        let zero_held : count_at start (held (connect_key address) s) ≡ 0 = rw fresh refl in
        let (_, counted) = first_held start (connect_key address) s zero_held in
        let stored : held (connect_key address) first_expire.1
            ≡ some (record { count = 1; expiry = none }) =
          laws.held-expire_failed start (connect_key address) connect_rate_window_seconds _ e fails
          ∙ counted
          ∙ rw fresh refl in
        admits-first none zero_held stored (live_all times) positive
      where
        live_all : (ts : List ℕ) → All (λ now. is_live now none ≡ true) ts
        live_all [] = tt
        live_all (t ∷ ts) = (refl, live_all ts)
