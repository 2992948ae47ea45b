-- ===== src/Mem.antt =====
-- src/mem.c, include/mem.h, src/dma.c and include/dma.h: the page allocator, and the copies between
-- kernel and user memory by the DMA controller.
pub mod Pages
pub mod Dma
pub mod Copy
pub mod User
mod Examples
