-- ===== src/Gates.antt =====
-- The file inventory and the API inventory gates on one packages document and one source tree.
pub mod Covered
pub mod Missing
mod SelfTests
pub mod Cases
mod Examples
mod GoldenRun
