-- ===== src/Base/Errno.antt =====
-- The error numbers that the library returns, as <errno.h> of Linux has them, and `err |= e`.
use Prim.Native.Nat.{ℕ}

abbrev pub enomem : ℕ
enomem = 12

abbrev pub einval : ℕ
einval = 22

abbrev pub erange : ℕ
erange = 34

abbrev pub enodata : ℕ
enodata = 61

abbrev pub ebadmsg : ℕ
ebadmsg = 74

abbrev pub eoverflow : ℕ
eoverflow = 75

abbrev pub enoent : ℕ
enoent = 2

abbrev pub eproto : ℕ
eproto = 71

abbrev pub enotsup : ℕ
enotsup = 95
