-- ===== src/Base/Errno.antt =====
-- The error numbers that the code returns, with their sign.
use linux_evfs.Base.Int.{ℤ, negsuc}

abbrev pub enoent : ℤ
enoent = negsuc 1

abbrev pub eio : ℤ
eio = negsuc 4

abbrev pub eagain : ℤ
eagain = negsuc 10

abbrev pub enomem : ℤ
enomem = negsuc 11

abbrev pub efault : ℤ
efault = negsuc 13

abbrev pub ebusy : ℤ
ebusy = negsuc 15

abbrev pub eexist : ℤ
eexist = negsuc 16

abbrev pub enotdir : ℤ
enotdir = negsuc 19

abbrev pub einval : ℤ
einval = negsuc 21

abbrev pub enotty : ℤ
enotty = negsuc 24
