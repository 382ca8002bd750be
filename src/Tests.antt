-- ===== src/Tests.antt =====
-- Runs of the definitions at concrete inputs, one module for each part.
mod Journal
mod Lock
mod Make
mod Path
mod Backup
mod Client
mod Connection
mod Score
mod Server
mod Socket
mod Submission
mod User
mod Update
