-- ===== src/Realtime/Adapter/Recovery.antt =====
-- A way from every state of the adapter to an attached one.
use nestjs_app.Prelude.{
  ℕ, zero, suc, ◌+◌, List, [], ◌∷◌, ◌≡◌, inl, inr, refl, arith, length, true, false,
}
use nestjs_app.Realtime.Adapter.{
  Adapter, Clients, both, Moment, Step, timer, ready, answered, Reach, begin_attach, pings_answered,
}
use nestjs_app.Realtime.Adapter.Phases.{Reach-Phase, Phase}

-- Several steps.
pub data Steps (a : Adapter) : Adapter → Type 0 where
  here : Steps a a
  next : {b c : Adapter} → Steps a b → Step b c → Steps a c

abbrev pub CanAttach : Adapter → Type 0
CanAttach a = (b : Adapter) × Steps a b × (b.redis_attached ≡ true)

module _ (at : Moment) (c : Clients) where
  -- The pings of the first attempt under way are answered.
  ping_step :
      (a start : Adapter) (ps : List Clients) → Steps start a → a.pinging ≡ c ∷ ps → CanAttach start
  unfolding pings_answered
  ping_step a start ps r e =
      (pings_answered c (record a { pinging = ps }), next r (answered c [] ps e), refl)

  from_timer :
      (a : Adapter) (n : ℕ)
      → a.timers ≡ suc n
      → a.redis_attached ≡ false
      → a.pinging ≡ []
      → CanAttach a
  unfolding begin_attach
  from_timer a n e f p =
      ping_step (begin_attach at (both c) (record a { timers = n })) a []
        (next here (timer at (both c) e)) (ground arith)

  from_listener :
      (a : Adapter) (n : ℕ)
      → a.listeners ≡ suc n
      → a.redis_attached ≡ false
      → a.pinging ≡ []
      → CanAttach a
  unfolding begin_attach
  from_listener a n e f p =
      ping_step (begin_attach at (both c) (record a { listeners = n })) a []
        (next here (ready at (both c) e)) (ground arith)

-- One attempt waits: it runs, if it is not under way, and is answered.
from_trying :
    (t l : ℕ) (ps : List Clients) (at : Moment) (fresh : Clients) (a : Adapter)
    → a.timers ≡ t
    → a.listeners ≡ l
    → a.pinging ≡ ps
    → a.redis_attached ≡ false
    → t + l + length ps ≡ 1
    → CanAttach a
from_trying t l (c ∷ ps) at fresh a et el ep f w = ping_step at c a a ps here ep
from_trying (suc t) l [] at fresh a et el ep f w = from_timer at fresh a t et f ep
from_trying zero (suc l) [] at fresh a et el ep f w = from_listener at fresh a l el f ep
from_trying zero zero [] at fresh a et el ep f w = absurd (omega arith)

Phase-CanAttach : (at : Moment) (fresh : Clients) (a : Adapter) → Phase a → CanAttach a
Phase-CanAttach at fresh a (inl t) = (a, here, t.attached)
Phase-CanAttach at fresh a (inr t) =
    from_trying a.timers a.listeners a.pinging at fresh a refl refl refl t.not_attached t.one_waits

-- The adapter never gives up: from every state that timers, events and answers lead to after
-- `createIOServer`, steps lead to a state with the Redis adapter attached, if the next two
-- `duplicate` calls succeed and the next pings are answered, and if the main client gets ready
-- again where a listener waits for that.
pub Reach-CanAttach : (at : Moment) (fresh : Clients) {a : Adapter} → Reach a → CanAttach a
Reach-CanAttach at fresh {a} r = Phase-CanAttach at fresh a (Reach-Phase r)
