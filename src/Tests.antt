-- ===== src/Tests.antt =====
-- Runs of the model at concrete inputs, in a world where libuv, tomlc99, hamlib and the system calls
-- are small functions.
mod Bench
mod Env
mod Pass
mod Port
mod Loop
mod Setup
mod Report
mod Timers
mod Radios
mod Idle
mod Launch
mod Whole
