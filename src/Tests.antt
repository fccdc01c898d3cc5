-- ===== src/Tests.antt =====
-- Tests of the model, and the theorems at concrete inputs.
pub mod Samples
mod WireTests
mod ConnectionTests
mod TransferTests
mod ApiTests
mod SessionTests
mod ExampleTests
mod FindingTests
