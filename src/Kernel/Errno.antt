-- ===== src/Kernel/Errno.antt =====
-- Error numbers (libc/include/errno.h). A function fails with `neg` of one.
use oldasternix.Prelude.{ℕ}

abbrev pub eacces : ℕ
eacces = 2

abbrev pub eexist : ℕ
eexist = 3

abbrev pub efbig : ℕ
efbig = 4

abbrev pub eperm : ℕ
eperm = 5

abbrev pub efault : ℕ
efault = 6

abbrev pub enospc : ℕ
enospc = 7

abbrev pub eisdir : ℕ
eisdir = 8

abbrev pub enotdir : ℕ
enotdir = 9

abbrev pub enodev : ℕ
enodev = 10
