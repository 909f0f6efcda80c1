-- ===== src/Envelope.antt =====
-- src/dlt_matterbeam/envelope.py: a dlt table's hints and rows as Matterbeam facts.
pub mod Table
pub mod Strip
pub mod Sort
pub mod Rows
pub mod Record
