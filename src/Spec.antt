-- ===== src/Spec.antt =====
-- internal/rpm/spec: RPM spec files, their lines and their structural tree.
pub mod Lines
pub mod Macro
pub mod Tree
pub mod Parsed
pub mod Visit
pub mod Edit
pub mod Balance
mod Tests
mod EditTests
mod PrependTests
