-- ===== src/Cases.antt =====
-- cases/domain.py and cases/store.py: the workflow of a case, its tables and what the store does to
-- them.
pub mod Domain
pub mod Tables
pub mod Queries
pub mod Activity
pub mod Store
pub mod Rows
pub mod Transitions
mod Tests
