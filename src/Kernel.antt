-- ===== src/Kernel.antt =====
-- The kernel proper (kernel/): device numbers and drivers.
pub mod Errno
pub mod Device
pub mod Panic
pub mod Ports
pub mod Machine
pub mod Drivers
pub mod Memdev
pub mod Ramdisk
pub mod Keyboard
pub mod Console
pub mod Tty
pub mod Initcalls
pub mod Interrupts
pub mod Ps2
pub mod Frames
pub mod Paging
pub mod Tmpfs
pub mod Boot
mod Tests
