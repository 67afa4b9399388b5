-- ===== src/Runner.antt =====
-- cmd/kaigara/kaigara.go: the wrapper that runs a command with secrets in its environment.
pub mod ExitCode
pub mod Supervise
pub mod Watch
pub mod Launch
pub mod Stdin
pub mod Goroutines
pub mod Run
pub mod Main
