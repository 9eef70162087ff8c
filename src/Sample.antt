-- ===== src/Sample.antt =====
-- Concrete values for the parameters of the model, on which the witnesses and the tests run.
pub mod Tokens
pub mod Store
pub mod Values
pub mod Counters
pub mod Texts
pub mod Lists
pub mod Chess
