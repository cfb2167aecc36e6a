-- ===== src/Handler.antt =====
-- The retry loop of `handle` in main.go. An attempt and the clock are the environment's: each
-- turn takes what the upstream did (`Attempt`) and what the timers said (`Clock`). JSON, the log
-- and the request archive are left out; `swapModel` takes a codec of JSON objects.
pub mod Body
pub mod Turn
pub mod Loop
pub mod Finish
pub mod Once
pub mod Admit
pub mod Reading
