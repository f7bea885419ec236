-- ===== src/Buf.antt =====
-- The package buf: byte slices with a capacity, the allocator of power-of-two arrays, the buffer over
-- them, and the deprecated pool of buffers.
pub mod Slice
pub mod Alloc
pub mod Buffer
pub mod Pool
