-- ===== src/IntrusiveList.antt =====
-- The intrusive doubly linked list, include/intrusive_list.h.
mod Tests
pub mod Nodes
pub mod Links
pub mod Insert
pub mod Deque
pub mod Splice
pub mod Reverse
pub mod Walk
