-- ===== src/Shell.antt =====
-- super.c: the read-eval-print front end with its line editor.
pub mod State
pub mod Store
pub mod Cursor
pub mod Screen
pub mod Terminal
pub mod Edit
pub mod Words
pub mod Frame
pub mod History
pub mod Matches
pub mod Complete
pub mod Drawn
pub mod Keys
pub mod Prompt
mod Tests
mod Witnesses
