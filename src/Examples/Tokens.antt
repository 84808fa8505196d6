-- ===== src/Examples/Tokens.antt =====
-- The theorems of the repositories at runs on the platform in memory.
use auth_login_load_balancin.Prelude.{◌≤◌, ◌<◌, ◌≡◌, ◌≢◌, refl, some}
use auth_login_load_balancin.Prelude.Exec.{ok, err, ◌>>=◌, catch, for_each}
use auth_login_load_balancin.Prelude.Exec.Keeps.{Keeps}
use auth_login_load_balancin.Errors.{refresh_token_not_found}
use auth_login_load_balancin.Platform.{RefreshTokenRecord, on_cache, on_db, on_os, total_os}
use auth_login_load_balancin.Go.Time
use auth_login_load_balancin.Go.Time.{sub-pos_iff}
use auth_login_load_balancin.Go.Strings.{trim_space, to_lower, lower_rune}
use auth_login_load_balancin.InMemory.{Memory, platform, views, laws}
use auth_login_load_balancin.Repository.Clock.{current_time, time_until}
use auth_login_load_balancin.Repository.User.{find_by_email}
use auth_login_load_balancin.Repository.Session
use auth_login_load_balancin.Repository.Session.Revocation.{
  NoneActive, HasStatus, revoke_all_by_user_id-NoneActive, update_status-HasStatus,
}
use auth_login_load_balancin.Repository.RefreshToken
use auth_login_load_balancin.Repository.RefreshToken.{
  redis_refresh_token_key, redis_user_refresh_tokens_key, redis_session_refresh_tokens_key,
  revoke_listed,
}
use auth_login_load_balancin.Repository.RefreshToken.View.{
  Faded, record_at, find_by_token-record_at,
}
use auth_login_load_balancin.Repository.RefreshToken.Status.{Restated, update_status-Restated}
use auth_login_load_balancin.Repository.RefreshToken.Outcome.{
  update_status-eq-ok, update_status_not_found,
}
use auth_login_load_balancin.Repository.RefreshToken.Revocation.{
  IsDead, Revoking, revoke_all_by_user-Revoking,
}
use auth_login_load_balancin.Repository.RefreshToken.Create.{create-Faded}
use auth_login_load_balancin.Repository.RefreshToken.Index.{
  IsListed, IsIndexed, create-eq-ok, create-IsIndexed, update_status-IsIndexed,
  revoke_all_by_user_complete, revoke_all_by_session_complete,
}
use auth_login_load_balancin.Examples.Scenario.{
  ann, no_tokens, first_token, second_token, one_token, two_tokens, later, used_record,
  one_token-IsIndexed, two_tokens-IsIndexed,
}

abbrev all_revoked : Memory
all_revoked = (RefreshToken.revoke_all_by_user platform "user-1" two_tokens).1

abbrev session_revoked : Memory
session_revoked = (RefreshToken.revoke_all_by_session platform "session-1" two_tokens).1

revokes : RefreshToken.revoke_all_by_user platform "user-1" two_tokens ≡ (ok tt, all_revoked)
unfolding Time.sub ◌>>=◌ catch for_each on_cache on_db on_os total_os current_time time_until
    RefreshToken.create RefreshToken.find_by_token RefreshToken.update_status revoke_listed
    redis_refresh_token_key redis_user_refresh_tokens_key redis_session_refresh_tokens_key
    RefreshToken.revoke_all_by_user
revokes = refl

revokes_session :
    RefreshToken.revoke_all_by_session platform "session-1" two_tokens ≡ (ok tt, session_revoked)
unfolding Time.sub ◌>>=◌ catch for_each on_cache on_db on_os total_os current_time time_until
    RefreshToken.create RefreshToken.find_by_token RefreshToken.update_status revoke_listed
    redis_refresh_token_key redis_user_refresh_tokens_key redis_session_refresh_tokens_key
    RefreshToken.revoke_all_by_session
revokes_session = refl

used_found : record_at platform views two_tokens "second" ≡ some used_record
unfolding Time.sub ◌>>=◌ catch on_cache total_os current_time time_until RefreshToken.create
    record_at redis_refresh_token_key redis_user_refresh_tokens_key redis_session_refresh_tokens_key
used_found = refl

expired_found :
    record_at platform views
      (RefreshToken.update_status platform "second" "REVOKED" later).1
      "second"
    ≡ some used_record
unfolding Time.sub ◌>>=◌ catch on_cache total_os current_time time_until RefreshToken.create
    record_at RefreshToken.update_status RefreshToken.find_by_token redis_refresh_token_key
    redis_user_refresh_tokens_key redis_session_refresh_tokens_key
expired_found = refl

created : RefreshToken.create platform second_token one_token ≡ (ok tt, two_tokens)
unfolding Time.sub ◌>>=◌ catch on_cache total_os current_time time_until RefreshToken.create
    redis_refresh_token_key redis_user_refresh_tokens_key redis_session_refresh_tokens_key
created = refl

found_by_token :
    RefreshToken.find_by_token platform "second" two_tokens ≡ (ok second_token, two_tokens)
unfolding Time.sub ◌>>=◌ catch on_cache total_os current_time time_until RefreshToken.create
    RefreshToken.find_by_token redis_refresh_token_key redis_user_refresh_tokens_key
    redis_session_refresh_tokens_key
found_by_token = refl

abbrev restated : Memory
restated = (RefreshToken.update_status platform "first" "USED" two_tokens).1

updates : RefreshToken.update_status platform "first" "USED" two_tokens ≡ (ok tt, restated)
unfolding Time.sub ◌>>=◌ catch on_cache total_os current_time time_until RefreshToken.create
    RefreshToken.find_by_token RefreshToken.update_status redis_refresh_token_key
    redis_user_refresh_tokens_key redis_session_refresh_tokens_key
updates = refl

abbrev too_late : Memory
too_late = (RefreshToken.update_status platform "second" "REVOKED" later).1

updates_late :
    RefreshToken.update_status platform "second" "REVOKED" later
    ≡ (err refresh_token_not_found, too_late)
unfolding Time.sub ◌>>=◌ catch on_cache total_os current_time time_until RefreshToken.create
    RefreshToken.find_by_token RefreshToken.update_status redis_refresh_token_key
    redis_user_refresh_tokens_key redis_session_refresh_tokens_key
updates_late = refl

abbrev signed_out : Memory
signed_out = (Session.revoke_all_by_user_id platform "user-1" no_tokens).1

ends_sessions : Session.revoke_all_by_user_id platform "user-1" no_tokens ≡ (ok tt, signed_out)
unfolding Session.revoke_all_by_user_id on_db
ends_sessions = refl

abbrev one_ended : Memory
one_ended = (Session.update_status platform "session-1" "REVOKED" no_tokens).1

ends_session : Session.update_status platform "session-1" "REVOKED" no_tokens ≡ (ok tt, one_ended)
unfolding Session.update_status on_db
ends_session = refl

found_by_email : find_by_email platform " A@b.C " no_tokens ≡ (ok ann, no_tokens)
unfolding find_by_email on_db ◌>>=◌ to_lower lower_rune trim_space
found_by_email = refl

revoke_all_by_user_complete_example : IsDead platform views all_revoked "second"
revoke_all_by_user_complete_example =
    revoke_all_by_user_complete platform views laws "user-1" two_tokens two_tokens-IsIndexed revokes
      "second" used_record used_found refl

revoke_all_by_session_complete_example : IsDead platform views session_revoked "second"
revoke_all_by_session_complete_example =
    revoke_all_by_session_complete platform views laws "session-1" two_tokens two_tokens-IsIndexed
      revokes_session "second" used_record used_found refl

revoke_all_by_user-Revoking_example :
    Keeps (Revoking platform views) (RefreshToken.revoke_all_by_user platform "user-1")
revoke_all_by_user-Revoking_example = revoke_all_by_user-Revoking platform views laws "user-1"

create-IsIndexed_example : IsIndexed platform views two_tokens
create-IsIndexed_example =
    create-IsIndexed platform views laws second_token one_token one_token-IsIndexed

update_status-IsIndexed_example : IsIndexed platform views restated
update_status-IsIndexed_example =
    update_status-IsIndexed platform views laws "first" "USED" two_tokens two_tokens-IsIndexed

create-eq-ok_example :
    (record_at platform views two_tokens "second" ≡ some used_record)
    × IsListed platform views two_tokens.cache "second" used_record
    × (one_token.os < 1000)
create-eq-ok_example = create-eq-ok platform views laws second_token one_token created

other_token : first_token.token ≢ second_token.token
other_token q = cc

create-Faded_example :
    Faded (record_at platform views one_token "first") (record_at platform views two_tokens "first")
create-Faded_example =
    create-Faded platform views laws second_token first_token.token one_token created other_token

update_status-Restated_example : Restated platform views "first" "USED" two_tokens restated
update_status-Restated_example =
    update_status-Restated platform views laws "first" "USED" two_tokens

update_status-eq-ok_example :
    (r : RefreshTokenRecord) × (record_at platform views two_tokens "first" ≡ some r)
    × (record_at platform views restated "first" ≡ some (record r { status = "USED" }))
    × (two_tokens.os < r.expires_at)
update_status-eq-ok_example =
    update_status-eq-ok platform views laws "first" "USED" two_tokens updates

update_status_not_found_example : used_record.expires_at ≤ too_late.os
update_status_not_found_example =
    update_status_not_found platform views laws "second" "REVOKED" later updates_late used_record
      expired_found

find_by_token-record_at_example :
    (record_at platform views two_tokens "second" ≡ some used_record)
    × (second_token.token ≡ "second")
find_by_token-record_at_example =
    find_by_token-record_at platform views laws "second" two_tokens found_by_token

revoke_all_by_user_id-NoneActive_example :
    NoneActive "user-1" signed_out.db.sessions
    × (signed_out.cache ≡ no_tokens.cache)
    × (signed_out.os ≡ no_tokens.os)
revoke_all_by_user_id-NoneActive_example =
    revoke_all_by_user_id-NoneActive platform views laws "user-1" no_tokens ends_sessions

update_status-HasStatus_example :
    HasStatus "session-1" "REVOKED" one_ended.db.sessions
    × (one_ended.cache ≡ no_tokens.cache)
    × (one_ended.os ≡ no_tokens.os)
update_status-HasStatus_example =
    update_status-HasStatus platform views laws "session-1" "REVOKED" no_tokens ends_session
