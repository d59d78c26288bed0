-- ===== src/Jail/Sound/Roots.antt =====
-- The calls that set namespaces, roots and paths keep a jail sound.
use minijail.Base.{Bool, true, false, ◌&&◌, none, Bytes, ◌≡◌, refl}
use minijail.Jail.State.{Jail}
use minijail.Jail.Answer.{Host}
use minijail.Jail.Namespace.{
  minijail_namespace_enter_vfs, minijail_namespace_enter_net, minijail_namespace_set_hostname,
  minijail_namespace_uts, minijail_enter_chroot, minijail_enter_pivot_root,
  minijail_set_preload_path,
}
use minijail.Jail.Sound.{
  IsSound, Keeps, Keeps-if, Keeps-option, sound, unchanged, partly, dies, HasVfs-vfs, HasVfs-enter,
  IsRoot,
}

-- With a mount namespace of its own the mounts stay inside.
pub vfs-IsSound :
    (j : Jail) → IsSound j → IsSound (record j { flags = record j.flags { vfs = true } })
vfs-IsSound j (l, m, r, f, g, u, i, o, c, p, a) = (
  l,
  record {
    mounts_valid = m.mounts_valid;
    mounts_counted = m.mounts_counted;
    mounts_inside = HasVfs-vfs j.mounts j.flags.enter_vfs;
    remounts_valid = m.remounts_valid;
  },
  r,
  f,
  g,
  u,
  i,
  o,
  c,
  p,
  a,
)

pub minijail_namespace_enter_vfs-Keeps :
    (host : Host) (path : Bytes) (j : Jail)
    → IsSound j
    → Keeps j (minijail_namespace_enter_vfs host path j)
unfolding minijail_namespace_enter_vfs
minijail_namespace_enter_vfs-Keeps host path j (l, m, r, f, g, u, i, o, c, p, a) =
    Keeps-option (host.open_path path) (λ e. dies)
      (λ fd. sound (
        l,
        record {
          mounts_valid = m.mounts_valid;
          mounts_counted = m.mounts_counted;
          mounts_inside = HasVfs-enter j.mounts j.flags.vfs;
          remounts_valid = m.remounts_valid;
        },
        r,
        f,
        g,
        u,
        i,
        o,
        c,
        p,
        a,
      ))

pub minijail_namespace_enter_net-Keeps :
    (host : Host) (path : Bytes) (j : Jail)
    → IsSound j
    → Keeps j (minijail_namespace_enter_net host path j)
unfolding minijail_namespace_enter_net
minijail_namespace_enter_net-Keeps host path j s =
    Keeps-option (host.open_path path) (λ e. dies) (λ fd. sound s)

pub minijail_namespace_set_hostname-Keeps :
    (host : Host) (name : Bytes) (j : Jail)
    → IsSound j
    → Keeps j (minijail_namespace_set_hostname host name j)
unfolding minijail_namespace_set_hostname minijail_namespace_uts
minijail_namespace_set_hostname-Keeps host name j s =
    Keeps-option j.hostname (λ e. Keeps-if (host.copies name) (λ e. sound s) (λ e. partly s))
      (λ x. unchanged)

-- No directory is set yet, so neither flag is.
root_unset :
    (chroot pivot_root : Bool)
    → IsRoot none chroot pivot_root
    → (chroot ≡ false) × (pivot_root ≡ false)
root_unset false false h = (refl, refl)
root_unset false true h = cc
root_unset true b h = cc

pub minijail_enter_chroot-Keeps :
    (dir : Bytes) (j : Jail) → IsSound j → Keeps j (minijail_enter_chroot dir j)
unfolding minijail_enter_chroot
minijail_enter_chroot-Keeps dir j (l, m, r, f, g, u, i, o, c, p, a) =
    Keeps-option j.chrootdir
      (λ e. sound (
        l,
        m,
        r,
        f,
        g,
        u,
        i,
        (tt, (root_unset j.flags.chroot j.flags.pivot_root (rw e at o)).1),
        c,
        p,
        a,
      ))
      (λ x. unchanged)

only_pivot : (chroot : Bool) → chroot ≡ false → (chroot && true) ≡ false
only_pivot true e = cc
only_pivot false e = refl

pub minijail_enter_pivot_root-Keeps :
    (dir : Bytes) (j : Jail) → IsSound j → Keeps j (minijail_enter_pivot_root dir j)
unfolding minijail_enter_pivot_root
minijail_enter_pivot_root-Keeps dir j (l, m, r, f, g, u, i, o, c, p, a) =
    Keeps-option j.chrootdir
      (λ e. sound (
        l,
        m,
        r,
        f,
        g,
        u,
        i,
        (
          tt,
          only_pivot j.flags.chroot (root_unset j.flags.chroot j.flags.pivot_root (rw e at o)).0,
        ),
        c,
        p,
        a,
      ))
      (λ x. unchanged)

pub minijail_set_preload_path-Keeps :
    (path : Bytes) (j : Jail) → IsSound j → Keeps j (minijail_set_preload_path path j)
unfolding minijail_set_preload_path
minijail_set_preload_path-Keeps path j s =
    Keeps-option j.preload_path (λ e. sound s) (λ x. unchanged)
