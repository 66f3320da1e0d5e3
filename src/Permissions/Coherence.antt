-- ===== src/Permissions/Coherence.antt =====
-- The cached rules of a user are those that the database gives, and stay so.
use text.Mathlib.TextLemmas.{append_cancel_left}
use nestjs_app.Prelude.{
  ℕ, ◌≡◌, refl, sym, ap, ◌∙◌, inl, inr, String, false, Option, none, some, List, [], ◌∷◌, map,
  arith, eq_iff, Bool-cases,
}
use nestjs_app.Result.{Result, ok, err}
use nestjs_app.Db.{Db, Documented}
use nestjs_app.Users.JoinRows.{has}
use nestjs_app.Permissions.Cache.{Backend, World, Rules, IsRedis}
use nestjs_app.Permissions.{
  hit_or_miss, cache_key, load_permission_rules, get_permission_rules_for_user, safe_get, safe_set,
  rules_or_load, safe_del_batch, invalidate_users, invalidate_user, safe_del,
}

module _ (b : Backend) (documented : Documented b.orm) (laws : IsRedis b.redis) where
  open b use {redis}

  abbrev pub Coherent : World b → Type 0
  Coherent w =
      (t : ℕ) (user_id : String) (v : Rules)
      → redis.get t (cache_key user_id) w.cache ≡ ok (some v)
      → v ≡ load_permission_rules b w.db user_id

  key-injective : (x y : String) → cache_key x ≡ cache_key y → x ≡ y
  unfolding cache_key
  key-injective x y e = append_cancel_left "rbac:perms:" x y e

  has-keys :
      (user_id : String) (ids : List String)
      → has user_id ids ≡ has (cache_key user_id) (map cache_key ids)
  has-keys user_id [] = refl
  has-keys user_id (x ∷ ids) = ground (
    arith,
    has-keys user_id ids,
    eq_iff user_id x,
    eq_iff (cache_key user_id) (cache_key x),
    key-injective user_id x,
    ap cache_key {x = user_id} {y = x},
  )

  -- What a change of the database must do: the users whose rules it changes are among the ids.
  abbrev pub AffectsOnly : List String → Db → Db → Type 0
  AffectsOnly ids before after =
      (user_id : String)
      → has user_id ids ≡ false
      → load_permission_rules b after user_id ≡ load_permission_rules b before user_id

  -- DEL of the keys answers.
  abbrev pub Deletes : List String → World b → Type 0
  Deletes ids w = (redis.del (map cache_key ids) w.cache).0 ≡ ok tt

  pub Coherent-invalidate_users :
      (ids : List String) (w : World b) (after : Db)
      → Coherent w
      → Deletes ids w
      → AffectsOnly ids w.db after
      → Coherent (invalidate_users b ids (record w { db = after })).1
  unfolding invalidate_users safe_del_batch
  Coherent-invalidate_users [] w after h d same t user_id v e =
      h t user_id v e ∙ sym (same user_id refl)
  Coherent-invalidate_users (x ∷ ids) w after h d same t user_id v e =
      elim (Bool-cases (has user_id (x ∷ ids))) [
        | inl hit ↦ absurd (
            laws.get-del_deleted t (cache_key user_id) _ w.cache v d
              (sym (has-keys user_id (x ∷ ids)) ∙ hit) e)
        | inr clear ↦
            h t user_id v (laws.get-del t (cache_key user_id) _ w.cache v e)
            ∙ sym (same user_id clear)
      ]

  safe_set-Coherent :
      (now : ℕ) (user_id : String) (w : World b)
      → Coherent w
      → Coherent (safe_set b now (cache_key user_id) (load_permission_rules b w.db user_id) w).1
  unfolding safe_set
  safe_set-Coherent now user_id w h t other v e =
      elim (laws.get-set t now (cache_key other) (cache_key user_id) _ v b.cache_ttl_ms w.cache e) [
        | inl (same_key, same_value) ↦
            same_value
            ∙ ap (load_permission_rules b w.db) (sym (key-injective other user_id same_key))
        | inr before ↦ h t other v before
      ]

  hit : (r : Result (Option Rules)) (v : Rules) → hit_or_miss b r ≡ some v → r ≡ ok (some v)
  hit (ok found) v e = ap ok e
  hit (err e') v e = absurd (ground arith)

  -- What reading the rules must do: answer those of the database, and keep the cache coherent.
  abbrev pub ReadsRules : String → World b → Result Rules × World b → Type 0
  ReadsRules user_id w r =
      (r.0 ≡ ok (load_permission_rules b w.db user_id)) × (r.1.db ≡ w.db) × Coherent r.1

  rules_or_load-ReadsRules :
      (now : ℕ) (user_id : String) (w : World b) (cached : Option Rules)
      → ((v : Rules) → cached ≡ some v → v ≡ load_permission_rules b w.db user_id)
      → Coherent w
      → ReadsRules user_id w (rules_or_load b now user_id cached w)
  unfolding rules_or_load
  rules_or_load-ReadsRules now user_id w (some v) right h = (ap ok (right v refl), refl, h)
  rules_or_load-ReadsRules now user_id w none right h =
      (refl, refl, safe_set-Coherent now user_id w h)

  -- If the cache is coherent, the rules of a user are read without an error, whatever the cache
  -- answers: they are those of the database, and the cache stays coherent.
  pub get_permission_rules-ReadsRules :
      (now : ℕ) (user_id : String) (w : World b)
      → Coherent w
      → ReadsRules user_id w (get_permission_rules_for_user b now user_id w)
  unfolding get_permission_rules_for_user safe_get
  get_permission_rules-ReadsRules now user_id w h =
      rules_or_load-ReadsRules now user_id w
        (hit_or_miss b (redis.get now (cache_key user_id) w.cache))
        (λ v e. h now user_id v (hit _ v e)) h

  -- The same for one user.
  pub Coherent-invalidate_user :
      (id : String) (w : World b) (after : Db)
      → Coherent w
      → Deletes (id ∷ []) w
      → AffectsOnly (id ∷ []) w.db after
      → Coherent (invalidate_user b id (record w { db = after })).1
  unfolding invalidate_user safe_del invalidate_users safe_del_batch
  Coherent-invalidate_user id w after h d same =
      Coherent-invalidate_users (id ∷ []) w after h d same
