-- ===== src/Runloop.antt =====
-- src/runloop.c and src/runloop.h: the event loop over libuv.
pub mod Later
pub mod Loop
pub mod Poll
pub mod Timer
