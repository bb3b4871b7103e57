-- ===== src/Tracing.antt =====
-- tracing/tracing.go and tracing/environment.go. A Go string is the list of its bytes here; header
-- keys are ASCII.
pub mod Pod
pub mod Headers
pub mod Context
pub mod Setup
mod Scenarios
