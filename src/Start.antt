-- ===== src/Start.antt =====
-- How the kernel starts: entry.c and task.c set up the descriptors, and main.c the parts, in its order.
mod Tests
pub mod Descriptors
pub mod Selectors
mod Texts
pub mod Main
pub mod Booted
pub mod Ready
