-- ===== src/InMemory.antt =====
-- A platform in memory that keeps the laws of Platform/Laws.antt: the servers as lists, no failure,
-- no expiry.
mod Codec
pub mod Cache
pub mod Database
pub mod Machine
pub mod Signatures
pub mod Letters
pub mod Net
use auth_login_load_balancin.Prelude.{ℕ}
use auth_login_load_balancin.Platform.{Platform, World}
use auth_login_load_balancin.Platform.Laws.{Views, Laws, CounterLaws}

abbrev pub Memory : Type 0
Memory = World Cache.Cache Database.Tables ℕ

abbrev pub platform : Platform Cache.Cache Database.Tables ℕ
platform = record {
  redis = Cache.redis;
  postgres = Database.postgres;
  os = Machine.os;
  lib = Machine.lib;
}

abbrev pub views : Views Cache.Cache Database.Tables ℕ
views = record { redis = Cache.view; postgres = Database.view; time = λ o. o }

pub counters : CounterLaws platform.redis Cache.counter_view
counters = Cache.counter-laws

pub laws : Laws platform views
laws = record {
  redis = Cache.laws;
  postgres = Database.laws;
  os = Machine.os-laws;
  json = Machine.json-laws;
}
