-- ===== src/Realtime/Adapter/Phases.antt =====
-- The three phases of the adapter, and what holds in each.
use nestjs_app.Prelude.{
  ℕ, suc, ◌+◌, String, true, false, Option, none, some, List, [], ◌∷◌, ◌++◌, ◌≡◌, ◌⊎◌, inl, inr, ap,
  arith, refl, subst, sym, ◌∙◌, length, length-append, ◌==◌, any,
}
use nestjs_app.Realtime.Status.{is_degraded, new_status}
use nestjs_app.Realtime.Adapter.{
  Adapter, Clients, Duplicated, both, first_failed, second_failed, Moment, Step, timer, ready,
  answered, failed, Reach, created, later, new_adapter, begin_attach, pings_answered, pings_failed,
  duplicate_clients,
}

-- What waits: the attempts under way and those that are scheduled.
abbrev pub waiting : Adapter → ℕ
waiting a = a.timers + a.listeners + length a.pinging

abbrev pub AreHeld : Option Clients → List ℕ → Type 0
AreHeld none connected = ⊥
AreHeld (some c) connected =
    (any (λ x. x == c.pub_client) connected ≡ true)
    × (any (λ x. x == c.sub_client) connected ≡ true)

abbrev pub AllHeld : List Clients → List ℕ → Type 0
AllHeld [] connected = Unit
AllHeld (c ∷ cs) connected = AreHeld (some c) connected × AllHeld cs connected

-- Attached, and nothing waits.
pub record IsAttached (a : Adapter) : Type 0 where
  pub attached : a.redis_attached ≡ true
  pub status_attached : a.status.attached ≡ true
  pub not_degraded : is_degraded a.status ≡ false
  pub nothing_waits : waiting a ≡ 0
  pub clients_connected : AreHeld a.clients a.connected

-- Not attached, and one attempt is under way or scheduled.
pub record IsTrying (a : Adapter) : Type 0 where
  pub not_attached : a.redis_attached ≡ false
  pub status_not_attached : a.status.attached ≡ false
  pub one_waits : waiting a ≡ 1
  pub pinging_connected : AllHeld a.pinging a.connected

held_new :
    (c : Clients) (ps : List Clients) (connected : List ℕ)
    → ps ≡ []
    → AllHeld (ps ++ c ∷ []) (c.pub_client ∷ c.sub_client ∷ connected)
held_new c [] connected e = ground arith
held_new c (p ∷ ps) connected e = absurd (ground arith)

held_only :
    (c : Clients) (ps : List Clients) (connected : List ℕ)
    → ps ≡ c ∷ []
    → AllHeld ps connected
    → AreHeld (some c) connected
held_only c ps connected e h = let both_held = subst (λ xs. AllHeld xs connected) e h in both_held.0

held_none : (ps : List Clients) (connected : List ℕ) → ps ≡ [] → AllHeld ps connected
held_none [] connected e = tt
held_none (p ∷ ps) connected e = absurd (ground arith)

started-IsTrying :
    (at : Moment) (made : Duplicated) (a : Adapter)
    → a.redis_attached ≡ false
    → a.status.attached ≡ false
    → waiting a ≡ 0
    → a.pinging ≡ []
    → IsTrying (duplicate_clients at made a)
unfolding duplicate_clients
started-IsTrying at (both c) a f s w p = record {
  not_attached = f;
  status_not_attached = s;
  one_waits = omega (arith, length-append a.pinging (c ∷ []));
  pinging_connected = held_new c a.pinging a.connected p;
}
started-IsTrying at (first_failed reason) a f s w p =
    ground (arith, held_none a.pinging a.connected)
started-IsTrying at (second_failed client reason) a f s w p =
    ground (arith, held_none a.pinging (client ∷ a.connected))

-- An attempt that starts where nothing waits is the one that waits.
begin-IsTrying :
    (at : Moment) (made : Duplicated) (a : Adapter)
    → a.redis_attached ≡ false
    → a.status.attached ≡ false
    → waiting a ≡ 0
    → a.pinging ≡ []
    → IsTrying (begin_attach at made a)
unfolding begin_attach
begin-IsTrying at made a f s w p =
    let begun : begin_attach at made a ≡ duplicate_clients at made a = ground arith in
    subst IsTrying (sym begun) (started-IsTrying at made a f s w p)

empty_of_zero {ℓ} : {A : Type ℓ} (xs : List A) → length xs ≡ 0 → xs ≡ []
empty_of_zero [] h = refl
empty_of_zero (x ∷ xs) h = absurd (omega arith)

-- The one attempt under way is all that waits.
record IsOnly (a : Adapter) (c : Clients) (before after : List Clients) : Type 0 where
  pub pinging_only : a.pinging ≡ c ∷ []
  pub rest_empty : before ++ after ≡ []
  pub timers_zero : a.timers ≡ 0
  pub listeners_zero : a.listeners ≡ 0

attempt-IsOnly :
    (a : Adapter) (c : Clients) (before after : List Clients)
    → waiting a ≡ 1
    → a.pinging ≡ before ++ c ∷ after
    → IsOnly a c before after
attempt-IsOnly a c before after w p =
    let count : length a.pinging ≡ length before + suc (length after) =
      ap length p ∙ length-append before (c ∷ after) in
    let eb : before ≡ [] = empty_of_zero before (omega arith) in
    let ea : after ≡ [] = empty_of_zero after (omega arith) in
    record {
      pinging_only = rw (eb, ea) at p;
      rest_empty = rw (eb, ea);
      timers_zero = omega arith;
      listeners_zero = omega arith;
    }

no_attempt :
    (a : Adapter) (c : Clients) (before after : List Clients)
    → waiting a ≡ 0
    → a.pinging ≡ before ++ c ∷ after
    → ⊥
no_attempt a c before after w p =
    let count : length a.pinging ≡ length before + suc (length after) =
      ap length p ∙ length-append before (c ∷ after) in
    omega arith

-- The phase of a state.
abbrev pub Phase : Adapter → Type 0
Phase a = IsAttached a ⊎ IsTrying a

created-Phase : (at : Moment) (made : Duplicated) → IsTrying (begin_attach at made new_adapter)
unfolding new_adapter new_status
created-Phase at made = begin-IsTrying at made new_adapter refl refl refl refl

failed_attempt :
    (at : Moment) (reason : String) (c : Clients) (rest : List Clients) (a : Adapter)
    → IsTrying a
    → rest ≡ []
    → a.timers ≡ 0
    → a.listeners ≡ 0
    → IsTrying (pings_failed at reason c (record a { pinging = rest }))
unfolding pings_failed
failed_attempt at reason c [] a t e tz lz = ground arith
failed_attempt at reason c (p ∷ ps) a t e tz lz = absurd (ground arith)

Step-IsTrying : {a b : Adapter} → Step a b → IsTrying a → Phase b
unfolding pings_answered
Step-IsTrying {a} (timer {n} at made e) t = inr (
    begin-IsTrying at made (record a { timers = n }) t.not_attached t.status_not_attached
      (omega (arith, t.one_waits)) (empty_of_zero a.pinging (omega (arith, t.one_waits))))
Step-IsTrying {a} (ready {n} at made e) t = inr (
    begin-IsTrying at made (record a { listeners = n }) t.not_attached t.status_not_attached
      (omega (arith, t.one_waits)) (empty_of_zero a.pinging (omega (arith, t.one_waits))))
Step-IsTrying {a} (answered c before after p) t =
    let only = attempt-IsOnly a c before after t.one_waits p in
    let rest : length (before ++ after) ≡ 0 = ap length only.rest_empty in
    inl (record {
      attached = refl;
      status_attached = refl;
      not_degraded = refl;
      nothing_waits = omega (arith, only.timers_zero, only.listeners_zero);
      clients_connected = held_only c a.pinging a.connected only.pinging_only t.pinging_connected;
    })
Step-IsTrying {a} (failed at reason c before after p) t =
    let only = attempt-IsOnly a c before after t.one_waits p in
    let rest : length (before ++ after) ≡ 0 = ap length only.rest_empty in
    inr (
      failed_attempt at reason c (before ++ after) a t only.rest_empty only.timers_zero
        only.listeners_zero)

Step-IsAttached : {a b : Adapter} → Step a b → IsAttached a → Phase b
Step-IsAttached {a} (timer at made e) t = absurd (omega (arith, t.nothing_waits))
Step-IsAttached {a} (ready at made e) t = absurd (omega (arith, t.nothing_waits))
Step-IsAttached {a} (answered c before after p) t =
    absurd (no_attempt a c before after t.nothing_waits p)
Step-IsAttached {a} (failed at reason c before after p) t =
    absurd (no_attempt a c before after t.nothing_waits p)

Step-Phase : {a b : Adapter} → Step a b → Phase a → Phase b
Step-Phase s (inl t) = Step-IsAttached s t
Step-Phase s (inr t) = Step-IsTrying s t

-- Whatever order timers, events and answers come in after `createIOServer`: either the adapter is
-- attached, its status says so and is not degraded, its two clients are connected and nothing
-- waits; or it is not attached, its status says so, and exactly one attempt is under way or
-- scheduled.
pub Reach-Phase : {a : Adapter} → Reach a → Phase a
Reach-Phase (created at made) = inr (created-Phase at made)
Reach-Phase (later r s) = Step-Phase s (Reach-Phase r)
