-- ===== src/Repository/RefreshToken/View.antt =====
-- The record of a token as the cache holds it, and what the lookups report of it.
use text.Mathlib.TextLemmas.{append_cancel_left}
use auth_login_load_balancin.Prelude.{
  String, ◌≡◌, ◌⊎◌, refl, Option, none, some, inl, inr, ap, Bool-cases,
}
use auth_login_load_balancin.Prelude.Exec.{
  Result, ok, err, >>=-eq-ok, ran, catch-eq-ok, pure-eq-ok, raise-ne-ok, lift-eq-ok, catch,
}
use auth_login_load_balancin.Prelude.Exec.Keeps.{
  Keeps, Keeps-pure, Keeps-raise, Keeps-lift, Keeps-bind, Keeps-catch, Keeps-if,
}
use auth_login_load_balancin.Errors.{is_redis_nil}
use auth_login_load_balancin.Model.{RefreshToken}
use auth_login_load_balancin.Platform.{Platform, World, RefreshTokenRecord, on_cache}
use auth_login_load_balancin.Platform.Laws.{Aged, Views, Laws}
use auth_login_load_balancin.Platform.Reads.{Reads, Reads-preorder, Reads-on_cache, on_cache_eq}
use auth_login_load_balancin.Repository.RefreshToken.{
  redis_refresh_token_key, to_record, not_found_of_nil, find_by_token,
}

-- Different tokens have different keys.
pub token_of_key : (a b : String) → redis_refresh_token_key a ≡ redis_refresh_token_key b → a ≡ b
unfolding redis_refresh_token_key
token_of_key a b h = append_cancel_left "auth:refresh_token:" a b h

abbrev pub parsed : Result RefreshTokenRecord → Option RefreshTokenRecord
parsed (ok r) = some r
parsed (err e) = none

-- A record is as before, or it has expired.
abbrev pub Faded : Option RefreshTokenRecord → Option RefreshTokenRecord → Type 0
Faded before after = (after ≡ before) ⊎ (after ≡ none)

module _ {S D O : Type 0} (p : Platform S D O) (v : Views S D O) where
  abbrev pub decoded : Option String → Option RefreshTokenRecord
  decoded none = none
  decoded (some text) = parsed (p.lib.unmarshal_record text)

  -- The record of a token, if its key is there and holds one.
  unfoldable pub record_at : World S D O → String → Option RefreshTokenRecord
  record_at w token = decoded (v.redis.value w.cache (redis_refresh_token_key token))

  pub Aged-decoded : (a b : Option String) → Aged a b → Faded (decoded a) (decoded b)
  Aged-decoded a b (inl e) = inl (ap decoded e)
  Aged-decoded a b (inr e) = inr (ap decoded e)

  -- Reading changes no record; it may have expired.
  pub Reads-record_at :
      (w t : World S D O) (token : String)
      → Reads v w t
      → Faded (record_at w token) (record_at t token)
  unfolding record_at
  Reads-record_at w t token r = Aged-decoded _ _ (r.cache.values (redis_refresh_token_key token))

  module _ (l : Laws p v) where
    pub find_by_token-Reads : (token : String) → Keeps (Reads v) (find_by_token p token)
    unfolding find_by_token
    find_by_token-Reads token = search (
      Reads-preorder v,
      Keeps-pure,
      Keeps-raise,
      Keeps-lift,
      Keeps-bind,
      Keeps-catch,
      Keeps-if,
      Reads-on_cache v,
      l.redis.get_reads,
    )

    get_record :
        (token : String) (w : World S D O) {value : String} {t : World S D O}
        → catch (on_cache (p.redis.get (redis_refresh_token_key token))) (not_found_of_nil p) w
          ≡ (ok value, t)
        → v.redis.value w.cache (redis_refresh_token_key token) ≡ some value
    get_record token w h = elim (catch-eq-ok _ _ w h) [
      | inl got ↦ l.redis.get_text _ _ (on_cache_eq _ got).0
      | inr (e, t, bad, rescued) ↦ elim (Bool-cases (is_redis_nil e)) [
        | inl nil ↦ absurd (raise-ne-ok _ t (rw nil at rescued))
        | inr more ↦ absurd (raise-ne-ok _ t (rw more at rescued))
      ]
    ]

    -- A token that FindByToken returns has the fields of the record that is stored under the token's
    -- key, and the token that was asked for.
    pub find_by_token-record_at :
        (token : String) (w : World S D O) {r : RefreshToken} {t : World S D O}
        → find_by_token p token w ≡ (ok r, t)
        → (record_at w token ≡ some (to_record r)) × (r.token ≡ token)
    unfolding find_by_token record_at
    find_by_token-record_at token w h = elim (>>=-eq-ok _ _ w h) [
      | ran value t got h₁ ↦ elim (>>=-eq-ok _ _ t h₁) [
        | ran found u parses h₂ ↦
            let (is_found, _) = lift-eq-ok _ t parses in
            let (same, _) = pure-eq-ok _ u h₂ in
            (rw (get_record token w got, is_found, ← same) refl, rw (← same) refl)
      ]
    ]
