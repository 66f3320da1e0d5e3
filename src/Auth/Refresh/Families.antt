-- ===== src/Auth/Refresh/Families.antt =====
-- A session family, the tokens that descend from one login, has at most one token that can still
-- be used: what `refresh`, `logout` and `createSession` do to the number of unrevoked tokens.
use nestjs_app.Prelude.{
  ℕ, ◌+◌, ◌≤◌, ◌<◌, ◌≡◌, refl, sym, subst, inl, inr, String, Bool, Option, none, some, List, [],
  ◌∷◌, ◌++◌, arith, str_eq, eq_iff, eq_refl, if◌then◌else◌, find?, find?-append, modify, Bool-cases,
}
use nestjs_app.Result.{Result, ok, err, continue}
use nestjs_app.Db.{Db, Documented, settle, User, RefreshToken}
use nestjs_app.Auth.Session.{Providers, Draw, SessionMetadata, same_hash, new_refresh_token}
use nestjs_app.Users.Lookup.{live_with_id}
use nestjs_app.Auth.Refresh.{
  Outcome, unrevoked_in_family, revoke, has_id, rotate, rotate_token, rotate_for, examine, answer,
  refresh,
}

-- How many tokens of the family are not revoked.
abbrev pub unrevoked : String → List RefreshToken → ℕ
unrevoked family [] = 0
unrevoked family (t ∷ ts) = (if unrevoked_in_family family t then 1 else 0) + unrevoked family ts

abbrev pub HasOneLivePerFamily : Db → Type 0
HasOneLivePerFamily db = (family : String) → unrevoked family db.refresh_tokens ≤ 1

pub unrevoked-append :
    (family : String) (xs ys : List RefreshToken)
    → unrevoked family (xs ++ ys) ≡ unrevoked family xs + unrevoked family ys
unrevoked-append family [] ys = omega arith
unrevoked-append family (x ∷ xs) ys = omega (arith, unrevoked-append family xs ys)

-- Revoking adds no unrevoked token.
pub unrevoked-revoke :
    (family : String) (q : RefreshToken → Bool) (now : ℕ) (ts : List RefreshToken)
    → unrevoked family (modify q (revoke now) ts) ≤ unrevoked family ts
unrevoked-revoke family q now [] = omega arith
unrevoked-revoke family q now (t ∷ ts) = ground (arith, unrevoked-revoke family q now ts)

unrevoked-rotate :
    (family id next : String) (now : ℕ) (ts : List RefreshToken)
    → unrevoked family (modify (has_id id) (rotate now next) ts) ≤ unrevoked family ts
unrevoked-rotate family id next now [] = omega arith
unrevoked-rotate family id next now (t ∷ ts) =
    ground (arith, unrevoked-rotate family id next now ts)

-- Rotating a token that was found unrevoked takes one away from its family.
unrevoked-rotate_found :
    (p : RefreshToken → Bool) (next : String) (now : ℕ) (ts : List RefreshToken) (t : RefreshToken)
    → find? p ts ≡ some t
    → t.revoked_at ≡ none
    → unrevoked t.family_id (modify (has_id t.id) (rotate now next) ts) < unrevoked t.family_id ts
unrevoked-rotate_found p next now [] t e r = cc
unrevoked-rotate_found p next now (x ∷ ts) t e r = elim (Bool-cases (p x)) [
  | inl hit ↦
      let same : x ≡ t = ground arith in
      subst
        (λ y.
          unrevoked t.family_id (modify (has_id t.id) (rotate now next) (y ∷ ts))
          < unrevoked t.family_id (y ∷ ts))
        (sym same)
        (ground
          (arith, eq_refl t.id, eq_refl t.family_id, unrevoked-rotate t.family_id t.id next now ts))
  | inr miss ↦ ground (arith, unrevoked-rotate_found p next now ts t)
]

-- So a rotation leaves at most as many as there were, counting the successor.
unrevoked-rotation :
    (family next : String) (now : ℕ) (q : RefreshToken → Bool) (ts : List RefreshToken)
    (t new : RefreshToken)
    → find? q ts ≡ some t
    → t.revoked_at ≡ none
    → new.family_id ≡ t.family_id
    → unrevoked family (modify (has_id t.id) (rotate now next) (ts ++ new ∷ []))
      ≤ unrevoked family ts
unrevoked-rotation family next now q ts t new found live same =
    elim (Bool-cases (str_eq t.family_id family)) [
      | inl own ↦
          let e : t.family_id ≡ family = (eq_iff _ _).0 own in
          subst
            (λ f.
              unrevoked f (modify (has_id t.id) (rotate now next) (ts ++ new ∷ []))
              ≤ unrevoked f ts)
            e
            (ground (
              arith,
              unrevoked-append t.family_id ts (new ∷ []),
              unrevoked-rotate_found q next now (ts ++ new ∷ []) t
                  (find?-append q ts (new ∷ []) found) live,
            ))
      | inr other ↦ ground (
        arith,
        unrevoked-append family ts (new ∷ []),
        unrevoked-rotate family t.id next now (ts ++ new ∷ []),
      )
    ]

module _ (p : Providers) (documented : Documented p.orm) where
  open p use {crypto}

  -- What the transaction leaves of the refresh tokens has no more unrevoked ones in any family.
  rotate_token-unrevoked :
      (stored : RefreshToken) (user : User) (meta : SessionMetadata) (draw : Draw) (db : Db)
      (q : RefreshToken → Bool) (family : String)
      → find? q db.refresh_tokens ≡ some stored
      → stored.revoked_at ≡ none
      → unrevoked family (settle db (rotate_token p stored user meta draw db)).1.refresh_tokens
        ≤ unrevoked family db.refresh_tokens
  unfolding rotate_token
  rotate_token-unrevoked stored user meta draw db q family found live =
      let new = new_refresh_token p user stored.family_id meta draw in
      ground (
        arith,
        documented.insert_lem (same_hash (crypto.hash_token draw.opaque_token)) new
            db.refresh_tokens,
        documented.update_lem (has_id stored.id) (rotate draw.now draw.row_id)
            (db.refresh_tokens ++ new ∷ []),
        unrevoked-rotation family draw.row_id draw.now q db.refresh_tokens stored new found live
            refl,
      )

  rotate_for-unrevoked :
      (stored : RefreshToken) (o : Option User) (meta : SessionMetadata) (draw : Draw) (db : Db)
      (q : RefreshToken → Bool) (family : String)
      → find? q db.refresh_tokens ≡ some stored
      → stored.revoked_at ≡ none
      → unrevoked family (settle db (rotate_for p stored meta draw o db)).1.refresh_tokens
        ≤ unrevoked family db.refresh_tokens
  unfolding rotate_for
  rotate_for-unrevoked stored none meta draw db q family found live = omega arith
  rotate_for-unrevoked stored (some user) meta draw db q family found live =
      ground (arith, rotate_token-unrevoked stored user meta draw db q family found live)

  examine-unrevoked :
      (meta : SessionMetadata) (draw : Draw) (db : Db) (q : RefreshToken → Bool)
      (o : Option RefreshToken) (family : String)
      → find? q db.refresh_tokens ≡ o
      → unrevoked family (settle db (examine p meta draw o db)).1.refresh_tokens
        ≤ unrevoked family db.refresh_tokens
  unfolding examine
  examine-unrevoked meta draw db q none family found = omega arith
  examine-unrevoked meta draw db q (some stored) family found = ground (
    arith,
    documented.update_lem (unrevoked_in_family stored.family_id) (revoke draw.now)
        db.refresh_tokens,
    unrevoked-revoke family (unrevoked_in_family stored.family_id) draw.now db.refresh_tokens,
    documented.update_lem (has_id stored.id) (revoke draw.now) db.refresh_tokens,
    unrevoked-revoke family (has_id stored.id) draw.now db.refresh_tokens,
    rotate_for-unrevoked stored (p.orm.find_one (live_with_id stored.user_id) db.users) meta draw db
        q family found,
  )

  answer_keeps :
      (draw : Draw) (r : Result Outcome) (db : Db) → (continue r (answer p draw) db).1 ≡ db
  unfolding answer
  answer_keeps draw (ok o) db = ground arith
  answer_keeps draw (err e) db = refl

  -- A refresh leaves no family with more unrevoked tokens than before, whatever it answers.
  pub refresh-unrevoked_le :
      (presented : Option String) (meta : SessionMetadata) (draw : Draw) (db : Db) (family : String)
      → unrevoked family (refresh p presented meta draw db).1.refresh_tokens
        ≤ unrevoked family db.refresh_tokens
  unfolding refresh
  refresh-unrevoked_le none meta draw db family = omega arith
  refresh-unrevoked_le (some presented) meta draw db family =
      elim (Bool-cases (str_eq presented "")) [
        | inl e ↦ rw e (omega arith)
        | inr e ↦
            rw (e, documented.transaction_lem, documented.find_one_lem, answer_keeps draw)
              (examine-unrevoked meta draw db _ _ family refl)
      ]
