-- ===== src/ResultStore.antt =====
-- src/store/result_store: materialised answers, paged from the store by a cursor.
pub mod Entry
pub mod Registry
pub mod Cell
pub mod Row
pub mod Reader
pub mod Cursor
pub mod Service
pub mod Writer
pub mod Owner
