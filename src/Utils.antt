-- ===== src/Utils.antt =====
-- DummyConcurrency/Utils: packed pointers and intrusive lists.
pub mod StampedPtr
pub mod IntrusiveForwardList
