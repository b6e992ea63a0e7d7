-- ===== src/Signals.antt =====
-- Operating-systems/lab4: processes that talk by signals. Requests is zad2, where a parent lets its
-- children go once enough of them have asked; Counting is zad3, where a parent and its child count
-- the signals that they get. A signal that is pending already is not kept twice, unless it is a
-- real-time signal.
pub mod Pending
pub mod Requests
pub mod Counting
mod Examples
