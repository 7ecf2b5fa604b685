-- ===== src/Times.antt =====
-- time.go: the time of the protocol and Go's time.Time. A time.Time is the nanoseconds since 1970 that
-- UnixNano gives; beyond the years 1678 to 2262 the package time leaves UnixNano undefined.
use go_nfs.Base.{ℕ, ◌+◌, ◌-◌, ◌*◌, ◌/◌, ◌%◌, ◌^◌, ◌<◌, ◌≡◌, Bool, ◌&&◌, ◌==◌, if◌then◌else◌, arith}

-- The integers, over the native numbers; `negsuc n` is - (n + 1).
pub data ℤ : Type 0 where
  pos negsuc : ℕ → ℤ

-- FileTime
pub record FileTime : Type 0 where
  pub seconds : ℕ
  pub nseconds : ℕ

abbrev pub second : ℕ
second = 10 ^ 9

-- uint32 of an int64
unfoldable pub wrap32 : ℤ → ℕ
wrap32 (ℤ.pos n) = n % 2 ^ 32
wrap32 (ℤ.negsuc n) = 2 ^ 32 - 1 - n % 2 ^ 32

-- t.Unix(): the whole seconds, rounded down
unfoldable pub unix : ℤ → ℤ
unix (ℤ.pos n) = ℤ.pos (n / second)
unix (ℤ.negsuc n) = ℤ.negsuc (n / second)

-- t.UnixNano() % int64(time.Second): the remainder has the sign of the time
unfoldable pub nanos : ℤ → ℤ
nanos (ℤ.pos n) = ℤ.pos (n % second)
nanos (ℤ.negsuc n) = let r = (n + 1) % second in if r == 0 then ℤ.pos 0 else ℤ.negsuc (r - 1)

-- ToNFSTime
unfoldable pub to_nfs_time : ℤ → FileTime
unfolding wrap32 unix nanos
to_nfs_time t = record { seconds = wrap32 (unix t); nseconds = wrap32 (nanos t) }

-- Native
unfoldable pub native : FileTime → ℤ
native t = ℤ.pos (t.seconds * second + t.nseconds)

-- EqualTimespec
unfoldable pub equal_timespec : FileTime → ℤ → ℤ → Bool
unfolding wrap32
equal_timespec t sec nsec = (t.nseconds == wrap32 nsec) && (t.seconds == wrap32 sec)

abbrev pub IsTime : FileTime → Type 0
IsTime t = (t.seconds < 2 ^ 32) × (t.nseconds < second)

-- A time of the protocol whose seconds fit 32 bits and whose nanoseconds are below 10 ^ 9 comes back
-- from its Go time.
pub to_nfs_time-native : (t : FileTime) → IsTime t → to_nfs_time (native t) ≡ t
unfolding to_nfs_time native
to_nfs_time-native t h = ground arith

-- A Go time from 1970 up to the second 2 ^ 32 comes back from its time of the protocol, which is one
-- whose nanoseconds are below 10 ^ 9 and equals its own seconds and nanoseconds.
pub native-to_nfs_time :
    (n : ℕ)
    → n < 2 ^ 32 * second
    → (native (to_nfs_time (ℤ.pos n)) ≡ ℤ.pos n)
      × IsTime (to_nfs_time (ℤ.pos n))
      × (equal_timespec (to_nfs_time (ℤ.pos n)) (unix (ℤ.pos n)) (nanos (ℤ.pos n)) ≡ Bool.true)
unfolding to_nfs_time native equal_timespec
native-to_nfs_time n h = (ground arith, ground arith, ground arith)

-- the fields fit their words
abbrev pub FitsTime : FileTime → Type 0
FitsTime t = (t.seconds < 2 ^ 32) × (t.nseconds < 2 ^ 32)

pub to_nfs_time_bounds : (t : ℤ) → FitsTime (to_nfs_time t)
unfolding to_nfs_time
to_nfs_time_bounds (ℤ.pos n) = (omega arith, omega arith)
to_nfs_time_bounds (ℤ.negsuc n) = ground arith
