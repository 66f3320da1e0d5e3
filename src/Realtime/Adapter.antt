-- ===== src/Realtime/Adapter.antt =====
-- src/modules/realtime/redis-io.adapter.ts: `attachRedisAdapter`, `degrade` and `dispose`. An
-- attempt stops at its `await`: `begin_attach` is what runs before it, `pings_answered` and
-- `pings_failed` what runs after it, and `Step` interleaves them with timers and events.
pub mod Phases
pub mod Recovery
use nestjs_app.Prelude.{
  ℕ, zero, suc, ◌+◌, String, Bool, true, false, not, ◌||◌, Option, none, some, List, [], ◌∷◌, ◌++◌,
  ◌≡◌, ◌==◌, keep, if◌then◌else◌,
}
use nestjs_app.Realtime.Status.{AdapterStatus, new_status, mark_attached, mark_degraded}

-- A Redis client by a number.
pub record Clients : Type 0 where
  pub pub_client : ℕ
  pub sub_client : ℕ

-- The adapter; with the clients that are connected, and the work that waits: timers of `degrade`,
-- listeners for `ready`, and attempts whose pings are under way.
pub record Adapter : Type 0 where
  pub redis_attached : Bool
  pub clients : Option Clients
  pub status : AdapterStatus
  pub connected : List ℕ
  pub timers : ℕ
  pub listeners : ℕ
  pub pinging : List Clients

unfoldable pub new_adapter : Adapter
unfolding new_status
new_adapter = record {
  redis_attached = false;
  clients = none;
  status = new_status;
  connected = [];
  timers = 0;
  listeners = 0;
  pinging = [];
}

-- What the two calls of `duplicate` give: both clients, or the error that one of them throws.
pub data Duplicated : Type 0 where
  both : Clients → Duplicated
  first_failed : String → Duplicated
  second_failed : ℕ → String → Duplicated

-- `redisClient.status === 'ready'`, and the clock.
pub record Moment : Type 0 where
  pub ready : Bool
  pub now : ℕ

unfoldable pub disconnect : Clients → List ℕ → List ℕ
disconnect c connected =
    keep (λ client. not (client == c.pub_client || client == c.sub_client)) connected

unfoldable pub degrade : Moment → String → Adapter → Adapter
unfolding mark_degraded
degrade at reason adapter =
    let marked = record adapter { status = mark_degraded at.now reason adapter.status } in
    if at.ready
    then record marked { timers = adapter.timers + 1 }
    else record marked { listeners = adapter.listeners + 1 }

unfoldable pub duplicate_clients : Moment → Duplicated → Adapter → Adapter
unfolding degrade
duplicate_clients at (both c) adapter = record adapter {
  connected = c.pub_client ∷ c.sub_client ∷ adapter.connected;
  pinging = adapter.pinging ++ c ∷ [];
}
duplicate_clients at (first_failed reason) adapter = degrade at reason adapter
duplicate_clients at (second_failed client reason) adapter =
    degrade at reason (record adapter { connected = client ∷ adapter.connected })

unfoldable pub begin_attach : Moment → Duplicated → Adapter → Adapter
unfolding duplicate_clients
begin_attach at made adapter =
    if adapter.redis_attached then adapter else duplicate_clients at made adapter

-- After `Promise.race` resolves.
unfoldable pub pings_answered : Clients → Adapter → Adapter
unfolding mark_attached
pings_answered c adapter = record adapter {
  clients = some c;
  redis_attached = true;
  status = mark_attached adapter.status;
}

-- After `Promise.race` rejects: a ping fails, or the time is over.
unfoldable pub pings_failed : Moment → String → Clients → Adapter → Adapter
unfolding disconnect degrade
pings_failed at reason c adapter =
    degrade at reason (record adapter { connected = disconnect c adapter.connected })

abbrev pub disconnect_held : Option Clients → List ℕ → List ℕ
disconnect_held none connected = connected
disconnect_held (some c) connected = disconnect c connected

unfoldable pub dispose : Adapter → Adapter
unfolding disconnect
dispose adapter = record adapter {
  connected = disconnect_held adapter.clients adapter.connected;
  clients = none;
}

-- What may happen once the server is created: a timer fires, Redis gets ready and a listener runs,
-- or the pings of an attempt are answered or fail.
pub data Step (a : Adapter) : Adapter → Type 0 where
  timer :
      {n : ℕ} (at : Moment) (made : Duplicated)
      → a.timers ≡ suc n
      → Step a (begin_attach at made (record a { timers = n }))
  ready :
      {n : ℕ} (at : Moment) (made : Duplicated)
      → a.listeners ≡ suc n
      → Step a (begin_attach at made (record a { listeners = n }))
  answered :
      (c : Clients) (before after : List Clients)
      → a.pinging ≡ before ++ c ∷ after
      → Step a (pings_answered c (record a { pinging = before ++ after }))
  failed :
      (at : Moment) (reason : String) (c : Clients) (before after : List Clients)
      → a.pinging ≡ before ++ c ∷ after
      → Step a (pings_failed at reason c (record a { pinging = before ++ after }))

-- The states after `createIOServer`, which makes the first attempt.
pub data Reach : Adapter → Type 0 where
  created : (at : Moment) (made : Duplicated) → Reach (begin_attach at made new_adapter)
  later : {a b : Adapter} → Reach a → Step a b → Reach b
