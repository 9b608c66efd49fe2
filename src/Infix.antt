-- ===== src/Infix.antt =====
-- src/utils/infixcalc.c: the calculator for integer expressions.
pub mod Operators
pub mod Parse
pub mod Calc
pub mod Tree
pub mod Meaning
pub mod Precedence
pub mod Brackets
pub mod Depend
