-- ===== src/Iflib/Arith.antt =====
-- tcc/iflib_arith.c: arithmetic on constants, and comparisons as tests of bits.
pub mod Powers
pub mod Logarithm
pub mod Constants
pub mod Moved
pub mod Bits
pub mod BitTests
pub mod Masks
pub mod LeBits
pub mod NeBits
pub mod Comparisons
pub mod Equalities
pub mod Examples
