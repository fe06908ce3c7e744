-- ===== src/Config.antt =====
-- config/property.go: the properties of an application, and the check that all of them are used.
pub mod Strings
pub mod Strconv
pub mod Files
pub mod Property
pub mod Loading
