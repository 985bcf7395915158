-- ===== src/RfTask.antt =====
-- Parts of firmware/src/rf_task.c, the 2.4 GHz link to the dongle.
pub mod Reports
pub mod DataFlash
pub mod Bond
pub mod Hop
pub mod Identity
pub mod Link
