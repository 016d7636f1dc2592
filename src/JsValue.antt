-- ===== src/JsValue.antt =====
-- src/vm/jsvalue: JavaScript values, properties and objects.
pub mod F64
pub mod Value
pub mod Object
pub mod Function
pub mod Array
pub mod Lookup
pub mod Equality
pub mod Registry
