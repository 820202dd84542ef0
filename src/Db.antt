-- ===== src/Db.antt =====
-- evm/db: key-value databases. A key is a byte string that is only compared, so a number stands for
-- it.
pub mod Dict
pub mod Database
pub mod Journal
pub mod Batch
pub mod Header
pub mod Chain
pub mod Account
