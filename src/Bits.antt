-- ===== src/Bits.antt =====
-- Binary digits of the native numbers: `&`, `|`, `~` and shifts of an unsigned word, digit by digit.
pub mod Digit
pub mod Word
pub mod Count
pub mod Table
pub mod Scan
pub mod Split
