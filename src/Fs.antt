-- ===== src/Fs.antt =====
-- internal/fs: the merged view of the lower tree and the overlay, and the FUSE operations on it. The
-- lower tree is read only while it is mounted: the system calls on it are functions of the path.
pub mod Merge
pub mod Window
pub mod Errno
pub mod Lower
pub mod Attrs
pub mod Resolve
pub mod Listing
pub mod Handle
pub mod Nodes
