-- ===== src/Heap.antt =====
-- The kernel heap, kernel/Heap.cpp: blocks and holes with a header and a footer in memory, and an
-- ordered list of the headers of the holes.
pub mod Layout
pub mod Index
pub mod Resize
pub mod Alloc
pub mod Free
pub mod Blocks
pub mod Construct
pub mod Chunks
pub mod BestFit
pub mod Sizes
pub mod Fit
pub mod Aligned
pub mod Overruns
pub mod Grow
pub mod GrowAlloc
pub mod GrowLast
pub mod Shrink
pub mod FreeLast
pub mod Merge
pub mod Join
pub mod JoinLeft
pub mod JoinBoth
pub mod RoundTrip
pub mod Tiling
pub mod TilingFree
mod Tests
mod JoinTests
mod TilingTests
