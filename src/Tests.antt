-- ===== src/Tests.antt =====
-- Concrete instances of the library's parameters, a small switch, and the theorems applied to it.
mod Fixtures
mod SwitchWitnesses
mod ObjectWitnesses
mod CpsFixtures
mod CpsWitnesses
