-- ===== src/Server/Serving.antt =====
-- What a start has checked when the server listens.
use Prim.Native.String.{◌++◌}
use auth_login_load_balancin.Prelude.{◌≡◌, refl, inl, inr}
use auth_login_load_balancin.Prelude.Exec.{
  Result, ok, err, Exec, ran, >>=-eq-ok, pure-eq-ok, catch-eq-ok, raise-ne-ok,
}
use auth_login_load_balancin.Errors.{Error}
use auth_login_load_balancin.Platform.{Platform, World, Libraries}
use auth_login_load_balancin.Config.{Config, Loaded, loaded, panics, load}
use auth_login_load_balancin.Config.Env.{Environment}
use auth_login_load_balancin.Config.Checked.{IsValid, IsSecure, load_iff}
use auth_login_load_balancin.Database.{Drivers, closed, new_postgres_connection, new_redis_client}
use auth_login_load_balancin.Http.Library.{Web}
use auth_login_load_balancin.Handler.Routes.{routes}
use auth_login_load_balancin.Server.{
  HttpServer, Started, serving, new_handler, new_server, with_redis, with_postgres, with_config,
  main,
}

-- A call has succeeded, and this is the state that it has left.
abbrev pub Succeeded : {V A : Type 0} → Exec V A → A → V → Type 0
Succeeded {V} m a t = (s : V) × (m s ≡ (ok a, t))

module _ {V Db Client : Type 0} (d : Drivers V Db Client) where
  closed-ne-ok :
      (close : Exec V (Unit {0})) (e : Error) (s : V) {t : V} → closed d close e s ≡ (ok tt, t) → ⊥
  unfolding closed
  closed-ne-ok close e s h = elim (>>=-eq-ok _ _ s h) [ ran _ x _ raised ↦ raise-ne-ok _ x raised ]

  pub new_postgres_connection-Succeeded :
      (cfg : Config) (s : V) {db : Db} {t : V}
      → new_postgres_connection d cfg s ≡ (ok db, t)
      → Succeeded (d.ping_db db) tt t
  unfolding new_postgres_connection
  new_postgres_connection-Succeeded cfg s {db} {t} h = elim (>>=-eq-ok _ _ s h) [
    | ran db' s₁ opens h₁ ↦ elim (>>=-eq-ok _ _ s₁ h₁) [
      | ran _ s₂ limits h₂ ↦ elim (>>=-eq-ok _ _ s₂ h₂) [
        | ran _ s₃ pings h₃ ↦ elim (catch-eq-ok _ _ s₂ pings) [
          | inr (e, x, _, closes) ↦ absurd (closed-ne-ok (d.close_db db') e x closes)
          | inl answers ↦ let (same, ends) = pure-eq-ok _ s₃ h₃ in rw (← same, ← ends) (s₂, answers)
        ]
      ]
    ]
  ]

  pub new_redis_client-Succeeded :
      (cfg : Config) (s : V) {client : Client} {t : V}
      → new_redis_client d cfg s ≡ (ok client, t)
      → Succeeded (d.ping_client client) tt t
  unfolding new_redis_client
  new_redis_client-Succeeded cfg s {client} {t} h = elim (>>=-eq-ok _ _ s h) [
    | ran options s₁ opens h₁ ↦ elim (>>=-eq-ok _ _ s₁ h₁) [
      | ran client' s₂ limits h₂ ↦ elim (>>=-eq-ok _ _ s₂ h₂) [
        | ran _ s₃ pings h₃ ↦ elim (catch-eq-ok _ _ s₂ pings) [
          | inr (e, x, _, closes) ↦ absurd (closed-ne-ok (d.close_client client') e x closes)
          | inl answers ↦ let (same, ends) = pure-eq-ok _ s₃ h₃ in rw (← same, ← ends) (s₂, answers)
        ]
      ]
    ]
  ]

module _ {S D O V Db Client : Type 0} (lib : Libraries) (d : Drivers V Db Client)
    (platform : Db → Client → Platform S D O) (web : Web (World S D O)) where
  -- The server that listens, and what was checked before.
  pub record Checked (env : Environment) (s : V) (server : HttpServer (World S D O)) (t : V)
      : Type 0 where
    pub cfg : Config
    pub db : Db
    pub client : Client
    pub is_loaded : load lib env ≡ loaded cfg
    pub is_valid : IsValid lib cfg
    pub is_secure : IsSecure lib cfg
    pub connected : V
    pub connects : new_postgres_connection d cfg s ≡ (ok db, connected)
    pub database_answers : Succeeded (d.ping_db db) tt connected
    pub connects_redis : new_redis_client d cfg connected ≡ (ok client, t)
    pub redis_answers : Succeeded (d.ping_client client) tt t
    pub address : server.addr ≡ "0.0.0.0:" ++ cfg.port
    pub serves : server.handler ≡ routes (platform db client) web (new_handler cfg)
    pub access_secret : (new_handler cfg).token_service.access_secret ≡ cfg.jwt_access_secret

  -- A server that listens is the one that was made for the configuration.
  serving_state :
      {x server : HttpServer (World S D O)} {u t : V}
      → ◌≡◌ {A = Started (World S D O) V} (serving x u) (serving server t)
      → u ≡ t
  serving_state h = cc

  served_at :
      (cfg : Config) (db : Db) (client : Client) {server : HttpServer (World S D O)} {u t : V}
      → ◌≡◌ {A = Started (World S D O) V}
          (serving (new_server lib d platform web cfg db client) u)
          (serving server t)
      → server.addr ≡ "0.0.0.0:" ++ cfg.port
  unfolding new_server
  served_at cfg db client {server} {u} h =
      let same : new_server lib d platform web cfg db client ≡ server = cc in rw (← same) refl

  served_by :
      (cfg : Config) (db : Db) (client : Client) {server : HttpServer (World S D O)} {u t : V}
      → ◌≡◌ {A = Started (World S D O) V}
          (serving (new_server lib d platform web cfg db client) u)
          (serving server t)
      → server.handler ≡ routes (platform db client) web (new_handler cfg)
  unfolding new_server
  served_by cfg db client {server} {u} h =
      let same : new_server lib d platform web cfg db client ≡ server = cc in rw (← same) refl

  -- A process that starts to listen has read a configuration that is valid and secure, and has then
  -- opened PostgreSQL and Redis; the last call of each opening was a ping that was answered. The
  -- server listens at the port of the configuration, and its handler is Routes of this configuration
  -- over these two connections, with the configuration's secret for access tokens.
  pub main-Checked :
      (env : Environment) (s : V) {server : HttpServer (World S D O)} {t : V}
      → main lib d platform web env s ≡ serving server t
      → Checked env s server t
  unfolding main
  main-Checked env s {server} {t} h = by_config (load lib env) refl h
    where
      by_redis :
          (cfg : Config) (db : Db)
          → load lib env ≡ loaded cfg
          → (s₁ : V) → new_postgres_connection d cfg s ≡ (ok db, s₁)
          → (o : Result Client) (s₂ : V) → new_redis_client d cfg s₁ ≡ (o, s₂)
          → with_redis lib d platform web cfg db (o, s₂) ≡ serving server t
          → Checked env s server t
      by_redis cfg db e s₁ opens (err x) s₂ runs h = absurd cc
      by_redis cfg db e s₁ opens (ok client) s₂ runs h =
          let (_, valid, secure) = (load_iff lib env cfg).0 e in
          record {
            cfg = cfg;
            db = db;
            client = client;
            is_loaded = e;
            is_valid = valid;
            is_secure = secure;
            connected = s₁;
            connects = opens;
            database_answers = new_postgres_connection-Succeeded d cfg s opens;
            connects_redis = rw (← serving_state h) runs;
            redis_answers = new_redis_client-Succeeded d cfg s₁ (rw (← serving_state h) runs);
            address = served_at cfg db client h;
            serves = served_by cfg db client h;
            access_secret = refl;
          }

      by_postgres :
          (cfg : Config)
          → load lib env ≡ loaded cfg
          → (o : Result Db) (s₁ : V) → new_postgres_connection d cfg s ≡ (o, s₁)
          → with_postgres lib d platform web cfg (o, s₁) ≡ serving server t
          → Checked env s server t
      by_postgres cfg e (err x) s₁ runs h = absurd cc
      by_postgres cfg e (ok db) s₁ runs h =
          by_redis cfg db e s₁ runs (new_redis_client d cfg s₁).0 (new_redis_client d cfg s₁).1 refl
            h

      by_config :
          (o : Loaded)
          → load lib env ≡ o
          → with_config lib d platform web o s ≡ serving server t
          → Checked env s server t
      by_config (panics m) e h = absurd cc
      by_config (loaded cfg) e h =
          by_postgres cfg e (new_postgres_connection d cfg s).0 (new_postgres_connection d cfg s).1
            refl h
