-- ===== src/Tests.antt =====
-- Runs of the handlers on concrete messages, and the theorems at concrete inputs.
pub mod Data
pub mod Acceptor
pub mod Learner
pub mod Ring
pub mod Mcaster
pub mod Config
pub mod Pool
pub mod Values
pub mod Leader
