-- ===== src/Keyboard.antt =====
-- include/keyboard.h: the PS/2 keyboard driver.
pub mod Buffer
pub mod Tables
pub mod Scancode
pub mod Queue
pub mod Translate
pub mod Event
pub mod Process
mod Tests
