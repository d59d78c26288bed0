-- ===== src/Jail.antt =====
-- The jail of libminijail.c: its state, the calls that configure it, and its serialised form.
pub mod MountFlag
pub mod Errno
pub mod State
pub mod Answer
pub mod Lookup
pub mod Identity
pub mod Namespace
pub mod Limits
pub mod Landlock
pub mod FsRules
pub mod Mounts
pub mod Seccomp
pub mod Call
pub mod Sound
pub mod Wire
pub mod Parse
pub mod Unmarshal
pub mod RoundTrip
