-- ===== src/Codegen/Ra/Pressure.antt =====
-- internal/codegen/x86_64/ra.go: the scan where at most seven values are live at a time.
pub mod Free
pub mod Live
pub mod Apart
pub mod Steps
