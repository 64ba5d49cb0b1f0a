-- ===== src/Queue.antt =====
-- web/services/queue.py: the rows of `download_queue` and the operations on them. A table is the
-- list of its rows in insertion order; `UPDATE … WHERE` changes the rows that pass its test and
-- counts them. The clock is an argument.
pub mod Table
pub mod Keys
pub mod Row
pub mod Ops
pub mod Machine
pub mod Reconcile
pub mod Pick
