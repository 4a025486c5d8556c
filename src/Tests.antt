-- ===== src/Tests.antt =====
-- Runs of the model on concrete inputs, and the theorems at inputs that meet their hypotheses.
pub mod Trees
pub mod Plain
pub mod Announced
pub mod Stamped
pub mod Full
pub mod Turning
mod Measured
mod Crewed
mod Manned
