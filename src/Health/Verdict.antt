-- ===== src/Health/Verdict.antt =====
-- When the application is healthy, and what it says of the adapter.
use nestjs_app.Prelude.{ℕ, ◌≡◌, ◌↔◌, ◌⊎◌, inl, inr, refl, String, true, Option, none, some, arith}
use nestjs_app.Realtime.Status.{AdapterStatus}
use nestjs_app.Realtime.Adapter.{Adapter, Reach}
use nestjs_app.Realtime.Adapter.Phases.{Phase, Reach-Phase}
use nestjs_app.Mail.Processor.{PermanentFailure}
use nestjs_app.Health.{Operation, check_health}

-- The answer is 200 exactly if both operations succeed and the adapter is attached.
abbrev pub IsHealthy : Operation → Operation → Adapter → Type 0
IsHealthy db redis adapter =
    (db.error ≡ none) × (redis.error ≡ none) × (adapter.redis_attached ≡ true)

healthy_of_ok :
    (db_ms redis_ms : ℕ) (db_error redis_error : Option String) (status : AdapterStatus)
    (failure : Option PermanentFailure) (now : ℕ)
    → (check_health
        (record { took_ms = db_ms; error = db_error })
        (record { took_ms = redis_ms; error = redis_error })
        status
        failure
        now).0
      ≡ 200
    → (db_error ≡ none) × (redis_error ≡ none) × (status.attached ≡ true)
unfolding check_health
healthy_of_ok db_ms redis_ms none none status failure now e = (refl, refl, ground arith)
healthy_of_ok db_ms redis_ms (some x) r status failure now e = absurd (ground arith)
healthy_of_ok db_ms redis_ms none (some x) status failure now e = absurd (ground arith)

ok_of_healthy :
    (db redis : Operation) (status : AdapterStatus) (failure : Option PermanentFailure) (now : ℕ)
    → db.error ≡ none
    → redis.error ≡ none
    → status.attached ≡ true
    → (check_health db redis status failure now).0 ≡ 200
unfolding check_health
ok_of_healthy db redis status failure now d r a = rw (d, r, a) refl

attached_iff : {a : Adapter} → Phase a → (a.status.attached ≡ true) ↔ (a.redis_attached ≡ true)
attached_iff (inl t) = (λ h. t.attached, λ h. t.status_attached)
attached_iff (inr t) = (
  λ h. absurd (ground (arith, t.status_not_attached)),
  λ h. absurd (ground (arith, t.not_attached)),
)

one_of_two :
    (db redis : Operation) (status : AdapterStatus) (failure : Option PermanentFailure) (now : ℕ)
    → ((check_health db redis status failure now).0 ≡ 200)
      ⊎ ((check_health db redis status failure now).0 ≡ 503)
unfolding check_health
one_of_two db redis status failure now = ground arith

-- In every state of the adapter that its timers, events and answers lead to: the check answers 200
-- exactly if the database and Redis answer their probes and the Redis adapter is attached; a
-- permanent failure of the mail has no say. Otherwise it answers 503.
pub check_health-IsHealthy :
    {a : Adapter} (db redis : Operation) (failure : Option PermanentFailure) (now : ℕ)
    → Reach a
    → (((check_health db redis a.status failure now).0 ≡ 200) ↔ IsHealthy db redis a)
      × (((check_health db redis a.status failure now).0 ≡ 200)
          ⊎ ((check_health db redis a.status failure now).0 ≡ 503))
check_health-IsHealthy {a} db redis failure now r =
    let same = attached_iff (Reach-Phase r) in
    (
      (
        λ e.
            let (d, m, s) =
              healthy_of_ok db.took_ms redis.took_ms db.error redis.error a.status failure now e in
            (d, m, same.0 s),
        λ h. ok_of_healthy db redis a.status failure now h.0 h.1 (same.1 h.2),
      ),
      one_of_two db redis a.status failure now,
    )
