-- ===== src/PideShop.antt =====
-- Final: the pide shop, its orders, their queue, and its oven.
pub mod Oven
pub mod Orders
pub mod Queue
pub mod Client
pub mod Matrices
pub mod Threads
pub mod Main
pub mod Work
