-- ===== src/Server.antt =====
-- Server/server.cpp.
pub mod Lock
pub mod Score
pub mod Session
pub mod Homework
pub mod Grading
pub mod Course
pub mod Account
pub mod Work
pub mod Connections
