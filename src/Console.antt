-- ===== src/Console.antt =====
-- console/: what is printed, and how it reaches the screen.
pub mod Numbers
pub mod Printf
pub mod Screen
pub mod Buffer
pub mod Graphics
pub mod Tests
