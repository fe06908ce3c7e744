-- ===== src/App.antt =====
-- app/: the life of an application and its components, and the components' `Register` functions.
pub mod Lifecycle
pub mod Runtime
pub mod Register
