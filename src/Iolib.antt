-- ===== src/Iolib.antt =====
-- The input and output helpers, enhancements/iolib/.
pub mod BufWriter
pub mod Cache
pub mod Counter
pub mod Copy
pub mod Splice
pub mod Closers
