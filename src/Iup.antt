-- ===== src/Iup.antt =====
-- iup_wrap.c: the part of the IUP binding that is written by hand.
pub mod Callbacks
pub mod Thunks
pub mod Runs
mod Witnesses
