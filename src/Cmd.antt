-- ===== src/Cmd.antt =====
-- cmd/salt-events: what the program does with its arguments before anything is served, and the recorder.
pub mod Capture
pub mod Run
