-- ===== src/Examples.antt =====
-- Witnesses: the theorems at concrete inputs.
mod Config
mod Identity
mod Diagnostics
mod Executor
mod Injection
mod Providers
mod Requests
mod Streams
