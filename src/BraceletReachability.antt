-- ===== src/BraceletReachability.antt =====
-- src/BraceletReachability/BraceletReachability.cpp: the compiler pass that finds a module's edges.
pub mod Values
pub mod Constants
pub mod Names
pub mod Visitor
pub mod Calls
pub mod Functions
pub mod Modules
