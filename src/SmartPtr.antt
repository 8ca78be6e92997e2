-- ===== src/SmartPtr.antt =====
-- src/agnocastlib/include/agnocast/agnocast_smart_pointer.hpp: `ipc_shared_ptr` and its control
-- block. The objects of a program that are `ipc_shared_ptr`s are the list `handles`; an operation
-- names them by position, and a constructor puts its object at the end. `block` is the heap of
-- control blocks. What leaves the class (the release ioctl, `delete`, the borrow counter) is the
-- list `events`, latest first. An object that was destroyed stays in the list as a null handle.
pub mod Defs
pub mod Refs
pub mod Reset
pub mod Counting
pub mod Ownership
pub mod Release
pub mod Alias
mod Examples
