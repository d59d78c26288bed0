-- ===== src/Jail/Sound/MountList.antt =====
-- The calls that add mounts keep a jail sound.
use minijail.Base.{
  ℕ, bit_or, Bool, true, false, not, List, [], ◌∷◌, ◌++◌, Option, none, some, if◌then◌else◌, Bytes,
  codes, streq, ◌≡◌, ◌≢◌, refl, arith, Bool-cases, inl, inr,
}
use minijail.Jail.State.{Jail, Mountpoint}
use minijail.Jail.Answer.{Host}
use minijail.Jail.MountFlag
use minijail.Jail.Mounts.{
  is_absolute, mount_data, mount_flags, new_mountpoint, append_mount, minijail_mount_with_data,
  minijail_mount, is_valid_bind_path, minijail_bind, minijail_add_remount,
}
use minijail.Jail.Sound.{
  IsSound, HasVfs, IsMount, IsRemount, Keeps, sound, unchanged, Keeps-if, All-snoc, length-snoc,
  holds_otherwise,
}

mount_flags_ne_zero : (flags : ℕ) → mount_flags flags ≢ 0
unfolding mount_flags
mount_flags_ne_zero flags = ground arith

-- The defaults are set once.
pub mount_data_idem :
    (kind : Bytes) (data' : Option Bytes)
    → mount_data kind (mount_data kind data') ≡ mount_data kind data'
unfolding mount_data
mount_data_idem kind none = elim (Bool-cases (streq kind (codes "tmpfs"))) [
  | inl e ↦ rw e refl
  | inr e ↦ rw e (rw e refl)
]
mount_data_idem kind (some []) = elim (Bool-cases (streq kind (codes "tmpfs"))) [
  | inl e ↦ rw e refl
  | inr e ↦ rw e (rw e refl)
]
mount_data_idem kind (some (c ∷ s)) = refl

HasVfs-append :
    (mounts mounts' : List Mountpoint) (vfs enter_vfs : Bool)
    → HasVfs (mounts ++ mounts') (if enter_vfs then vfs else true) enter_vfs
HasVfs-append [] [] vfs e = tt
HasVfs-append [] (m ∷ ms) true true = refl
HasVfs-append [] (m ∷ ms) false true = refl
HasVfs-append [] (m ∷ ms) vfs false = refl
HasVfs-append (m ∷ ms) ms' true true = refl
HasVfs-append (m ∷ ms) ms' false true = refl
HasVfs-append (m ∷ ms) ms' vfs false = refl

pub append_mount-IsSound :
    (m : Mountpoint) (j : Jail) → IsMount m → IsSound j → IsSound (append_mount m j)
unfolding append_mount
append_mount-IsSound m j h (l, ms, r, f, g, u, i, o, c, p, a) = (
  l,
  record {
    mounts_valid = All-snoc IsMount j.mounts ms.mounts_valid h;
    mounts_counted = omega (arith, ms.mounts_counted, length-snoc j.mounts m);
    mounts_inside = HasVfs-append j.mounts (m ∷ []) j.flags.vfs j.flags.enter_vfs;
    remounts_valid = ms.remounts_valid;
  },
  r,
  f,
  g,
  u,
  i,
  o,
  c,
  p,
  a,
)

pub minijail_mount_with_data-Keeps :
    (src dest kind : Bytes) (flags : ℕ) (data' : Option Bytes) (j : Jail)
    → IsSound j
    → Keeps j (minijail_mount_with_data src dest kind flags data' j)
unfolding minijail_mount_with_data new_mountpoint
minijail_mount_with_data-Keeps src dest kind flags data' j s =
    Keeps-if (not (is_absolute dest)) (λ e. unchanged)
      (λ e. sound (
        append_mount-IsSound (new_mountpoint src dest kind flags data') j
          (
            holds_otherwise (is_absolute dest) e,
            mount_flags_ne_zero flags,
            mount_data_idem kind data',
          )
          s))

pub minijail_mount-Keeps :
    (src dest kind : Bytes) (flags : ℕ) (j : Jail)
    → IsSound j
    → Keeps j (minijail_mount src dest kind flags j)
unfolding minijail_mount
minijail_mount-Keeps src dest kind flags j s =
    minijail_mount_with_data-Keeps src dest kind flags none j s

pub minijail_bind-Keeps :
    (host : Host) (src dest : Bytes) (writeable : Bool) (j : Jail)
    → IsSound j
    → Keeps j (minijail_bind host src dest writeable j)
unfolding minijail_bind
minijail_bind-Keeps host src dest writeable j s =
    Keeps-if (not (is_valid_bind_path host src)) (λ e. unchanged)
      (λ e.
        minijail_mount-Keeps src dest (codes "minijail_bind")
          (if writeable then MountFlag.bind else bit_or MountFlag.bind MountFlag.rdonly) j s)

pub minijail_add_remount-Keeps :
    (name : Bytes) (mode : ℕ) (j : Jail) → IsSound j → Keeps j (minijail_add_remount name mode j)
unfolding minijail_add_remount
minijail_add_remount-Keeps name mode j (l, ms, r, f, g, u, i, o, c, p, a) =
    Keeps-if (not (is_absolute name)) (λ e. unchanged)
      (λ e. sound (
        l,
        record {
          mounts_valid = ms.mounts_valid;
          mounts_counted = ms.mounts_counted;
          mounts_inside = ms.mounts_inside;
          remounts_valid =
              All-snoc IsRemount j.remounts ms.remounts_valid
                (holds_otherwise (is_absolute name) e);
        },
        r,
        f,
        g,
        u,
        i,
        o,
        c,
        p,
        a,
      ))
