-- ===== src/Js.antt =====
-- What the sources use of the JavaScript language: strings, the printing and reading of numbers,
-- byte buffers, values whose type is found out at run time.
pub mod Text
pub mod Numeral
pub mod Bytes
pub mod BigInt
pub mod Value
pub mod Json
