-- ===== src/Examples/Once.antt =====
-- A refresh token that is used a second time, after another login, on the platform in memory.
use Prim.Native.Char.{code}
use auth_login_load_balancin.Prelude.{
  ℕ, zero, suc, String, ◌≡◌, ◌≢◌, refl, eq_iff, ap, arith, [], ◌∷◌,
}
use auth_login_load_balancin.Prelude.Exec.{ok}
use auth_login_load_balancin.Go.Strings.{trim_space, trim_left, trim_right, is_space}
use auth_login_load_balancin.Platform.Reads.{Reads-preorder}
use auth_login_load_balancin.InMemory.{Memory, platform, views, laws}
use auth_login_load_balancin.Service.Spent.{IsSpent, NeverAgain}
use auth_login_load_balancin.Service.Auth.Refresh.{refresh_access_token}
use auth_login_load_balancin.Service.Auth.Sequence.{
  Call, logs_in, logs_out_all, perform, Sequence, stops, calls, Sequence-IsSpent,
  refresh_access_token-once,
}
use auth_login_load_balancin.Repository.RefreshToken.View.{record_at}
use auth_login_load_balancin.Examples.Scenario.{config, browser, one_token, no_tokens}
use auth_login_load_balancin.Examples.Requests.{refreshed, refreshed_answer, refreshes}

-- The code of the first letter.
abbrev initial : String → ℕ
initial String.[] = 0
initial (String.◌∷◌ c s) = code c

-- The tokens in memory are strokes and a dash.
not_first : (o : ℕ) → platform.lib.raw_url_encode (o ∷ []) ≢ "first"
not_first zero e = cc ((eq_iff _ "first").1 e)
not_first (suc o) e = let i_is_f : 105 ≡ 102 = ap initial e in omega (arith, i_is_f)

abbrev Always : ℕ → Type 0
Always o = Unit

first_never_again : NeverAgain platform views "first" Always
first_never_again = record {
  now = λ o g. tt;
  new_uuid = λ o g. tt;
  rand_read = λ n o g. tt;
  generate = λ password o g. tt;
  differs = λ n o {bytes} {end} g h. let same : o ∷ [] ≡ bytes = cc h in rw (← same) (not_first o);
}

-- Ann logs in, and then out everywhere.
abbrev login_call : Call
login_call = logs_in "a@b.c" "secret" browser

abbrev logout_call : Call
logout_call = logs_out_all "user-1" browser

abbrev two_calls : Memory → Memory
two_calls w = perform platform config logout_call (perform platform config login_call w)

two_calls-Sequence : (w : Memory) → Sequence platform views config w (two_calls w)
two_calls-Sequence w =
    calls w login_call _ _ ((Reads-preorder views).refl _) refl
      (calls _ logout_call _ _ ((Reads-preorder views).refl _) refl (stops _))

named : trim_space " first " ≡ "first"
unfolding trim_space trim_left trim_right is_space
named = refl

differs : ◌≢◌ {A = String} "first" refreshed_answer.refresh_token
differs e = cc e

refresh_access_token-once_example : ¬ (
    refresh_access_token platform config " first " browser (two_calls refreshed.1)
    ≡ (ok refreshed_answer, no_tokens))
refresh_access_token-once_example =
    refresh_access_token-once platform views laws "first" Always first_never_again config " first "
      browser browser one_token refreshed.1 (two_calls refreshed.1) no_tokens refreshed_answer
      refreshed_answer named differs tt refreshes (two_calls-Sequence refreshed.1)

no_first : IsSpent platform views "first" no_tokens
unfolding record_at
no_first r at = absurd cc

Sequence-IsSpent_example : IsSpent platform views "first" (two_calls no_tokens)
Sequence-IsSpent_example =
    Sequence-IsSpent platform views laws "first" Always first_never_again config no_tokens
      (two_calls no_tokens) (two_calls-Sequence no_tokens) tt no_first
