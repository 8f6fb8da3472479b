-- ===== src/Auth/Rotation.antt =====
-- A refresh token of backend/app/auth/service.py is exchanged once.
use price_checker.Base.{
  ℕ, ◌<◌, Bool, true, false, ◌&&◌, ◌≡◌, refl, sym, subst, ap, ◌∙◌, arith, List, [], ◌∷◌, ◌++◌, Text,
  find, update_where, Option, none, some, is_none, inl, inr, Bool-cases,
}
use price_checker.Errors.{
  Error, ok, err, invalid_refresh_token, refresh_token_revoked, pending_rollback,
}
use price_checker.Models.Tenancy.{User, RefreshToken}
use price_checker.Database.{
  Session, Orm, ◌>>=◌, bind-eq-ok, query-eq-ok, or_raise-eq-ok, write-eq-ok, flush-eq-ok, flush,
}
use price_checker.Tenancy.{is_user}
use price_checker.Auth.Tokens.{Jwt, Settings, RefreshTokenPayload, decoded, decode_refresh_token}
use price_checker.Auth.{
  TokenPair, Draws, has_jti, usable, raise_some, revoke, revoke_all, revoke_valid, new_token,
  jti_taken, add_token, issue_token_pair, rotate, exchange, withdraw, refresh_tokens, logout,
}

-- The row that a lookup finds, behind a change of it that keeps its key.
found_changed :
    (jti : Text) (now : ℕ) (ts more : List RefreshToken) (t : RefreshToken)
    → find (has_jti jti) ts ≡ some t
    → find (has_jti jti) (update_where (has_jti jti) (revoke now) ts ++ more) ≡ some (revoke now t)
found_changed jti now [] more t e = absurd (cc e)
found_changed jti now (x ∷ ts) more t e = elim (Bool-cases (has_jti jti x)) [
  | inl hit ↦
      (let same : x ≡ t = cc (rw hit at e) in rw (hit, hit) (ap (λ z. some (revoke now z)) same))
  | inr miss ↦
      (let rest : find (has_jti jti) ts ≡ some t = rw miss at e in
        rw (miss, miss) (found_changed jti now ts more t rest))
]

-- A row that is revoked, or none.
abbrev Revoked : Option RefreshToken → Type 0
Revoked none = Unit
Revoked (some t) = (at : ℕ) × (t.revoked_at ≡ some at)

-- A lookup behind the change that `logout` makes.
logged_out :
    (jti : Text) (now : ℕ) (ts : List RefreshToken)
    → Revoked (
        find
          (has_jti jti)
          (update_where (λ t. has_jti jti t && is_none t.revoked_at) (revoke now) ts))
logged_out jti now [] = tt
logged_out jti now (t ∷ ts) = go (has_jti jti t) t.revoked_at refl refl (logged_out jti now ts)
  where
    go :
        (b : Bool) (o : Option ℕ)
        → has_jti jti t ≡ b
        → t.revoked_at ≡ o
        → Revoked (
            find
              (has_jti jti)
              (update_where (λ t. has_jti jti t && is_none t.revoked_at) (revoke now) ts))
        → Revoked (
            find
              (has_jti jti)
              (update_where (λ t. has_jti jti t && is_none t.revoked_at) (revoke now) (t ∷ ts)))
    go false o e f rest = rw (e, e) rest
    go true none e f rest = rw (e, f, e) (now, refl)
    go true (some at) e f rest = rw (e, f, e) (at, refl)

usable_lem :
    (stored : RefreshToken) (now : ℕ)
    → usable stored now ≡ none
    → (stored.revoked_at ≡ none) × (now < stored.expires_at)
unfolding usable
usable_lem stored now e = ground arith

module _ (jwt : Jwt) (orm : Orm) (settings : Settings) where
  issued :
      (draws : Draws) (user : User) (s s' : Session) (pair : TokenPair)
      → issue_token_pair jwt orm settings draws user s ≡ (ok pair, s')
      → s'.db.refresh_tokens ≡ s.db.refresh_tokens ++ new_token jwt orm settings draws user ∷ []
  unfolding issue_token_pair
  issued draws user s s' pair e =
      let change = add_token jwt orm settings draws (new_token jwt orm settings draws user) in
      let clash = jti_taken jwt orm settings draws in
      let (x, t, stored, rest) = bind-eq-ok (flush orm clash change) _ s e in
      let written : t ≡ record s { db = change s.db } =
        flush-eq-ok orm clash change s {x = x} {t = t} stored in
      let ended : t ≡ s' = cc rest in
      ap (λ (x : Session). x.db.refresh_tokens) (sym ended ∙ written)

  -- The exchange of a token that is found revoked, or not at all.
  refused :
      (draws : Draws) (payload : RefreshTokenPayload) (s : Session)
      → Revoked (find (has_jti payload.jti) s.db.refresh_tokens)
      → (e : Error) × ((rotate jwt orm settings draws payload s).0 ≡ err e)
  unfolding rotate usable ◌>>=◌
  refused draws payload s h =
      go (find (has_jti payload.jti) s.db.refresh_tokens) s.active refl refl h
    where
      go :
          (o : Option RefreshToken) (a : Bool)
          → find (has_jti payload.jti) s.db.refresh_tokens ≡ o
          → s.active ≡ a
          → Revoked o
          → (e : Error) × ((rotate jwt orm settings draws payload s).0 ≡ err e)
      go o false e a h = (pending_rollback, rw a refl)
      go none true e a h = (invalid_refresh_token, rw (a, e) refl)
      go (some t) true e a (at, revoked) = (refresh_token_revoked, rw (a, e, revoked) refl)

  -- What an exchange has found, and what it leaves.
  abbrev pub Exchanges : Draws → Text → Session → Session → Type 0
  Exchanges draws jti s s' =
      (stored : RefreshToken) × (find (has_jti jti) s.db.refresh_tokens ≡ some stored)
      × (stored.revoked_at ≡ none)
      × (draws.checked_at < stored.expires_at)
      × (find (has_jti jti) s'.db.refresh_tokens ≡ some (revoke draws.revoked_at stored))

  rotated :
      (draws : Draws) (payload : RefreshTokenPayload) (s s' : Session) (pair : TokenPair)
      → rotate jwt orm settings draws payload s ≡ (ok pair, s')
      → Exchanges draws payload.jti s s'
  unfolding rotate
  rotated draws payload s s' pair e =
      let (found, s₁, looked, e₁) = bind-eq-ok _ _ s e in
      let (_, is_found, same₁) =
        query-eq-ok (λ d. find (has_jti payload.jti) d.refresh_tokens) s looked in
      let (stored, s₂, there, e₂) = bind-eq-ok _ _ s₁ e₁ in
      let (is_there, same₂) = or_raise-eq-ok found _ s₁ there in
      let (x, s₃, checked, e₃) = bind-eq-ok _ _ s₂ e₂ in
      let (fine, same₃) = raised_none (usable stored draws.checked_at) s₂ checked in
      let (owner, s₄, asked, e₄) = bind-eq-ok _ _ s₃ e₃ in
      let (_, _, same₄) = query-eq-ok (λ d. find (is_user payload.sub) d.users) s₃ asked in
      let (user, s₅, known, e₅) = bind-eq-ok _ _ s₄ e₄ in
      let (_, same₅) = or_raise-eq-ok owner _ s₄ known in
      let (y, s₆, revoked, e₆) = bind-eq-ok _ _ s₅ e₅ in
      let written = write-eq-ok (revoke_all payload.jti draws.revoked_at) s₅ revoked in
      let all_same : s₅ ≡ s = same₅ ∙ same₄ ∙ same₃ ∙ same₂ ∙ same₁ in
      let first : find (has_jti payload.jti) s.db.refresh_tokens ≡ some stored =
        sym is_found ∙ is_there in
      let (open_still, in_time) = usable_lem stored draws.checked_at fine in
      let tokens : s'.db.refresh_tokens
          ≡ update_where (has_jti payload.jti) (revoke draws.revoked_at) s.db.refresh_tokens
            ++ new_token jwt orm settings draws user ∷ [] =
        issued draws user s₆ s' pair e₆
        ∙ ap (λ ts. ts ++ new_token jwt orm settings draws user ∷ [])
            (ap (λ (z : Session). z.db.refresh_tokens) written
              ∙ ap
                  (λ (z : Session).
                    update_where (has_jti payload.jti) (revoke draws.revoked_at)
                      z.db.refresh_tokens)
                  all_same) in
      (
        stored,
        first,
        open_still,
        in_time,
        ap (find (has_jti payload.jti)) tokens
            ∙ found_changed payload.jti draws.revoked_at s.db.refresh_tokens _ stored first,
      )
    where
      raised_none :
          (o : Option Error) (s : Session) {x : Unit {0}} {t : Session}
          → raise_some o s ≡ (ok x, t)
          → (o ≡ none) × (t ≡ s)
      raised_none none s e = (refl, cc e)
      raised_none (some x) s e = absurd (cc e)

  -- No token with this identifier is exchanged any more.
  abbrev pub Spent : Text → Session → Type 0
  Spent jti s =
      (later : Draws) (token : Text) (payload : RefreshTokenPayload)
      → decode_refresh_token jwt token later.decoded_at ≡ decoded payload
      → payload.jti ≡ jti
      → (e : Error) × ((refresh_tokens jwt orm settings later token s).0 ≡ err e)

  spent :
      (jti : Text) (s : Session) → Revoked (find (has_jti jti) s.db.refresh_tokens) → Spent jti s
  unfolding refresh_tokens exchange
  spent jti s h later token payload read same =
      let (e, refusal) =
        refused later payload s
          (subst (λ i. Revoked (find (has_jti i) s.db.refresh_tokens)) (sym same) h) in
      (e, rw read refusal)

  -- An exchange of a refresh token that returns has found the row of its identifier not
  -- revoked and not at its end, and leaves it revoked; after it, the exchange of any token
  -- with this identifier, at whatever time, raises.
  pub refresh_tokens-Spent :
      (draws : Draws) (token : Text) (payload : RefreshTokenPayload) (s s' : Session)
      (pair : TokenPair)
      → decode_refresh_token jwt token draws.decoded_at ≡ decoded payload
      → refresh_tokens jwt orm settings draws token s ≡ (ok pair, s')
      → Exchanges draws payload.jti s s' × Spent payload.jti s'
  unfolding refresh_tokens exchange
  refresh_tokens-Spent draws token payload s s' pair read e =
      let exchange = rotated draws payload s s' pair (rw read at e) in
      let (stored, _, _, _, after) = exchange in
      (exchange, spent payload.jti s' (subst Revoked (sym after) (draws.revoked_at, refl)))

  -- After a logout with a refresh token that can be read, the exchange of any token with its
  -- identifier, at whatever time, raises.
  pub logout-Spent :
      (draws : Draws) (token : Text) (payload : RefreshTokenPayload) (s s' : Session)
      → decode_refresh_token jwt token draws.decoded_at ≡ decoded payload
      → logout jwt orm settings draws token s ≡ (ok tt, s')
      → Spent payload.jti s'
  unfolding logout withdraw
  logout-Spent draws token payload s s' read e =
      let written : s' ≡ record s { db = revoke_valid payload.jti draws.revoked_at s.db } =
        write-eq-ok (revoke_valid payload.jti draws.revoked_at) s (rw read at e) in
      spent payload.jti s' (
        subst (λ (z : Session). Revoked (find (has_jti payload.jti) z.db.refresh_tokens))
          (sym written) (logged_out payload.jti draws.revoked_at s.db.refresh_tokens))
