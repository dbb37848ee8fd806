-- ===== src/LogParser.antt =====
-- cmd/logparser/main.go: log files become rows of a database.
pub mod Filename
pub mod Pairs
pub mod ConfigLine
pub mod Request
pub mod Database
pub mod Process
pub mod Tests
