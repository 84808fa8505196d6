-- ===== src/Repository/RefreshToken.antt =====
-- internal/repository/refresh_token_repository.go: refresh tokens in Redis. A token's record is a
-- JSON text under its key; two sets hold the tokens of a user and of a session.
pub mod View
pub mod Status
pub mod Outcome
pub mod Revocation
pub mod Index
pub mod Create
use Prim.Native.String.{◌++◌}
use auth_login_load_balancin.Prelude.{ℕ, String, Bool, ◌||◌, ◌==◌, List, [], ◌∷◌, if◌then◌else◌}
use auth_login_load_balancin.Prelude.Exec.{Exec, pure, raise, lift, catch, ◌>>=◌, for_each}
use auth_login_load_balancin.Prelude.Int.{pos, leb_ℤ}
use auth_login_load_balancin.Errors.{
  Error, refresh_token_not_found, is_redis_nil, is_refresh_token_not_found,
}
use auth_login_load_balancin.Model.{RefreshToken}
use auth_login_load_balancin.Platform.{Platform, World, RefreshTokenRecord, set, sadd, on_cache}
use auth_login_load_balancin.Repository.Clock.{time_until}

unfoldable pub redis_refresh_token_key : String → String
redis_refresh_token_key token = "auth:refresh_token:" ++ token

unfoldable pub redis_user_refresh_tokens_key : String → String
redis_user_refresh_tokens_key user_id = "auth:user_refresh_tokens:" ++ user_id

unfoldable pub redis_session_refresh_tokens_key : String → String
redis_session_refresh_tokens_key session_id = "auth:session_refresh_tokens:" ++ session_id

-- The record that is stored for a token, and the token that is read from a record.
abbrev pub to_record : RefreshToken → RefreshTokenRecord
to_record t = record {
  user_id = t.user_id;
  session_id = t.session_id;
  status = t.status;
  created_at = t.created_at;
  expires_at = t.expires_at;
}

abbrev pub of_record : String → RefreshTokenRecord → RefreshToken
of_record token r = record {
  token = token;
  user_id = r.user_id;
  session_id = r.session_id;
  status = r.status;
  expires_at = r.expires_at;
  created_at = r.created_at;
}

-- refreshToken.Status == "ACTIVE" || refreshToken.Status == "USED"
abbrev pub is_revocable : String → Bool
is_revocable status = status == "ACTIVE" || status == "USED"

module _ {S D O : Type 0} (p : Platform S D O) where
  abbrev pub not_found_of_nil : Error → Exec (World S D O) String
  not_found_of_nil e = if is_redis_nil e then raise refresh_token_not_found else raise e

  abbrev pub skip_not_found : Error → Exec (World S D O) (Unit {0})
  skip_not_found e = if is_refresh_token_not_found e then pure tt else raise e

  unfoldable pub create : RefreshToken → Exec (World S D O) (Unit {0})
  create token = do
    payload ← lift (p.lib.marshal_record (to_record token))
    ttl ← time_until p token.expires_at
    if leb_ℤ ttl (pos 0)
        then raise refresh_token_not_found
        else on_cache (
            p.redis.exec (
              set (redis_refresh_token_key token.token) payload ttl
              ∷ sadd (redis_user_refresh_tokens_key token.user_id) token.token
              ∷ sadd (redis_session_refresh_tokens_key token.session_id) token.token
              ∷ []))

  unfoldable pub find_by_token : String → Exec (World S D O) RefreshToken
  find_by_token token = do
    value ← catch (on_cache (p.redis.get (redis_refresh_token_key token))) not_found_of_nil
    found ← lift (p.lib.unmarshal_record value)
    pure (of_record token found)

  unfoldable pub update_status : String → String → Exec (World S D O) (Unit {0})
  update_status token status = do
    found ← find_by_token token
    payload ← lift (p.lib.marshal_record (to_record (record found { status = status })))
    ttl ← time_until p found.expires_at
    if leb_ℤ ttl (pos 0)
        then raise refresh_token_not_found
        else on_cache (p.redis.set (redis_refresh_token_key token) payload ttl)

  unfoldable pub revoke_by_token : String → Exec (World S D O) (Unit {0})
  revoke_by_token token = update_status token "REVOKED"

  -- The body of the loops of RevokeAllBySession and RevokeAllByUser; `skip_not_found` is their
  -- `continue`, which both calls share.
  unfoldable pub revoke_listed : String → Exec (World S D O) (Unit {0})
  revoke_listed token =
      catch
        (do
          found ← find_by_token token
          if is_revocable found.status then update_status token "REVOKED" else pure tt)
        skip_not_found

  unfoldable pub revoke_all_by_session : String → Exec (World S D O) (Unit {0})
  revoke_all_by_session session_id = do
    tokens ← on_cache (p.redis.smembers (redis_session_refresh_tokens_key session_id))
    for_each tokens revoke_listed

  unfoldable pub revoke_all_by_user : String → Exec (World S D O) (Unit {0})
  revoke_all_by_user user_id = do
    tokens ← on_cache (p.redis.smembers (redis_user_refresh_tokens_key user_id))
    for_each tokens revoke_listed
