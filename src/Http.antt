-- ===== src/Http.antt =====
-- circlet/circlet.c: the HTTP server over mongoose.
pub mod Server
pub mod Reply
pub mod Managers
pub mod Marked
pub mod Served
mod Witnesses
