-- ===== src/Main.antt =====
-- The main programs of src/main.
pub mod Session
pub mod Drone
pub mod BaseStation
pub mod Quit
