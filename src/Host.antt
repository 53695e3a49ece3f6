-- ===== src/Host.antt =====
-- kernel/vams_pci.c: the Linux driver of the endpoint. Its calls of the kernel (allocation, user
-- copies, page pinning, DMA mapping, interrupts) are arguments that give their outcome.
pub mod Uapi
pub mod Registers
pub mod State
pub mod Tables
pub mod Access
pub mod Requests
pub mod Frames
pub mod Finish
pub mod Cancel
pub mod Track
pub mod Insertion
pub mod Choice
pub mod Queues
pub mod Walk
pub mod Taken
pub mod Drain
pub mod Submission
pub mod Success
pub mod Interrupts
pub mod Bound
pub mod Acquire
pub mod Probe
pub mod Labels
pub mod Unwind
pub mod Removal
pub mod Buffers
pub mod Pinned
pub mod Wait
pub mod Ioctl
pub mod Files
pub mod Reaping
