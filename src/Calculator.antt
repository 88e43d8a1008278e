-- ===== src/Calculator.antt =====
-- runtime/calculator.py: the decimal calculator. Decimal arithmetic and the Unicode character
-- classes are parameters.
pub mod Types
pub mod Tokens
pub mod Validator
pub mod Parser
pub mod Expression
pub mod Fuel
pub mod Evaluation
pub mod Reading
pub mod Returns
pub mod Arithmetic
pub mod Agreement
mod Tests
