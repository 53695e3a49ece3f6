-- ===== src/Services.antt =====
-- firmware/src/main.c: the tasks beside the command pipeline.
pub mod Mail
pub mod Answering
pub mod Watch
pub mod Petting
pub mod Reports
pub mod Turns
pub mod Beats
pub mod Counted
