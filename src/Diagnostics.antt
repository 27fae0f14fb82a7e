-- ===== src/Diagnostics.antt =====
-- windows/external_native/diagnostics: the bounded probe of the native core, and the records, budgets
-- and messages by which it is admitted, watched and settled.
pub mod Native
pub mod Budget
pub mod Buffers
pub mod Certificates
pub mod Sequence
pub mod Grants
pub mod Supervisor
mod Tests
