-- ===== src/Config/Env.antt =====
-- internal/config/config.go: reading one variable of the environment. `env` is os.Getenv after
-- godotenv.Load, which is empty where a variable is not set.
use auth_login_load_balancin.Prelude.{
  String, Bool, ◌==◌, List, [], ◌∷◌, Option, none, some, if◌then◌else◌,
}
use auth_login_load_balancin.Prelude.Int.{ℤ}
use auth_login_load_balancin.Go.Strings.{trim_space, to_lower}
use auth_login_load_balancin.Go.Strings.Split.{split}
use auth_login_load_balancin.Go.Strings.Fold.{to_upper}
use auth_login_load_balancin.Go.Strconv.{atoi, parse_bool}
use auth_login_load_balancin.Platform.{Libraries}

-- slog.Level
pub data Level : Type 0 where
  level_debug level_info level_warn level_error : Level

abbrev pub Environment : Type 0
Environment = String → String

-- What is parsed, or the fallback.
abbrev pub or_else {ℓ} : {A : Type ℓ} → Option A → A → A
or_else none fallback = fallback
or_else (some a) fallback = a

-- The loop of getEnvAsCSV.
unfoldable pub trimmed_parts : List String → List String
trimmed_parts [] = []
trimmed_parts (part ∷ parts) =
    let rest = trimmed_parts parts in if trim_space part == "" then rest else trim_space part ∷ rest

abbrev pub or_default : List String → List String → List String
or_default [] fallback = fallback
or_default (x ∷ xs) fallback = x ∷ xs

module _ (lib : Libraries) (env : Environment) where
  unfoldable pub get_env : String → String → String
  get_env key fallback = if env key == "" then fallback else env key

  unfoldable pub get_env_as_int : String → ℤ → ℤ
  get_env_as_int key fallback =
      if env key == "" then fallback else or_else (atoi (env key)) fallback

  unfoldable pub get_env_as_bool : String → Bool → Bool
  get_env_as_bool key fallback =
      if env key == "" then fallback else or_else (parse_bool (env key)) fallback

  unfoldable pub get_env_as_csv : String → List String
  get_env_as_csv key =
      let value = trim_space (env key) in
      if value == "" then [] else trimmed_parts (split value b',')

  unfoldable pub get_env_as_csv_with_default : String → List String → List String
  get_env_as_csv_with_default key fallback = or_default (get_env_as_csv key) fallback

  unfoldable pub get_env_as_log_level : String → String → Level
  get_env_as_log_level key fallback =
      let name = to_upper lib.upper_table (trim_space (get_env key fallback)) in
      if name == "DEBUG"
      then level_debug
      else if name == "WARN"
      then level_warn
      else if name == "ERROR"
      then level_error
      else level_info

-- normalizeAppEnv, from the name trimmed and in lower case.
abbrev pub app_env_of : String → String
app_env_of name =
    if name == "prod"
    then "production"
    else if name == "stage"
    then "staging"
    else if name == ""
    then "development"
    else name

unfoldable pub normalize_app_env : Libraries → String → String
normalize_app_env lib value = app_env_of (to_lower lib.lower_table (trim_space value))
