-- ===== src/Jail/Wire.antt =====
-- The serialised form of a jail: `marshal_append`, `minijail_marshal_helper`, `minijail_size` and
-- `minijail_marshal` of libminijail.c. Integers are little-endian, as on x86_64.
pub mod Encoding
use minijail.Base.{
  ℕ, zero, suc, ◌+◌, ◌-◌, ◌*◌, ◌/◌, ◌%◌, ◌^◌, min, Bool, true, false, ◌&&◌, List, [], ◌∷◌, ◌++◌,
  Option, none, some, if◌then◌else◌, ltb, length, take, Bytes,
}
use minijail.Bpf.{Instr}
use minijail.Jail.State.{Jail, Mountpoint, FsRule}

-- The low `n` bytes of a number, the lowest first.
unfoldable pub le_bytes : ℕ → ℕ → Bytes
le_bytes zero x = []
le_bytes (suc n) x = x % 256 ∷ le_bytes n (x / 256)

-- An int that is -1 or not negative.
unfoldable pub fd_bytes : Option ℕ → Bytes
fd_bytes none = le_bytes 4 (2 ^ 32 - 1)
fd_bytes (some fd) = le_bytes 4 fd

-- struct sock_filter
unfoldable pub instr_bytes : Instr → Bytes
instr_bytes i = le_bytes 2 i.code ++ (le_bytes 1 i.jt ++ (le_bytes 1 i.jf ++ le_bytes 4 i.k))

unfoldable pub array_bytes {ℓ} : {A : Type ℓ} → (A → Bytes) → List A → Bytes
array_bytes encode [] = []
array_bytes encode (x ∷ xs) = encode x ++ array_bytes encode xs

-- `buf` is what is written. The objects are in memory, so that `total` stays below 2^64.
pub record MarshalState : Type 0 where
  pub available : ℕ
  pub total : ℕ
  pub buf : Bytes

unfoldable pub marshal_state_init : ℕ → MarshalState
marshal_state_init available = record { available = available; total = 0; buf = [] }

unfoldable pub marshal_append : MarshalState → Bytes → MarshalState
marshal_append state src =
    let copy_len = min state.available (length src) in
    record {
      available = state.available - copy_len;
      total = state.total + length src;
      buf = state.buf ++ take copy_len src;
    }

-- The string with its NUL.
unfoldable pub marshal_append_string : MarshalState → Bytes → MarshalState
marshal_append_string state src = marshal_append state (src ++ (0 ∷ []))

-- `if (src) marshal_append_string(state, src)`
unfoldable pub marshal_if : MarshalState → Option Bytes → MarshalState
marshal_if state none = state
marshal_if state (some src) = marshal_append_string state src

unfoldable pub marshal_data : MarshalState → Option Bytes → MarshalState
marshal_data state none = marshal_append state (le_bytes 4 0)
marshal_data state (some options) =
    marshal_append_string (marshal_append state (le_bytes 4 1)) options

unfoldable pub marshal_mount : MarshalState → Mountpoint → MarshalState
marshal_mount state m =
    marshal_append
      (marshal_data
        (marshal_append_string (marshal_append_string (marshal_append_string state m.src) m.dest)
          m.kind)
        m.options)
      (le_bytes 8 m.flags)

unfoldable pub marshal_fs_rule : MarshalState → FsRule → MarshalState
marshal_fs_rule state r =
    marshal_append (marshal_append_string state r.path) (le_bytes 8 r.landlock_flags)

-- A loop over a list.
unfoldable pub marshal_list {ℓ} :
    {A : Type ℓ} → (MarshalState → A → MarshalState) → MarshalState → List A → MarshalState
marshal_list each state [] = state
marshal_list each state (x ∷ xs) = marshal_list each (each state x) xs

unfoldable pub marshal_gids : MarshalState → Option (List ℕ) → MarshalState
marshal_gids state none = state
marshal_gids state (some gids) = marshal_append state (array_bytes (le_bytes 4) gids)

unfoldable pub marshal_filter : MarshalState → Bool → Option (List Instr) → MarshalState
marshal_filter state true (some filter) = marshal_append state (array_bytes instr_bytes filter)
marshal_filter state seccomp_filter filter = state

-- `image` gives the bytes of the structure itself.
module _ (image : Jail → Bytes) where
  unfoldable pub minijail_marshal_helper : MarshalState → Jail → MarshalState
  minijail_marshal_helper state j =
      let header = marshal_append state (image j) in
      let user = marshal_if header j.user in
      let gids = marshal_gids user j.suppl_gid_list in
      let chrootdir = marshal_if gids j.chrootdir in
      let hostname = marshal_if chrootdir j.hostname in
      let table = marshal_if hostname j.alt_syscall_table in
      let filter = marshal_filter table j.flags.seccomp_filter j.filter_prog in
      let mounts = marshal_list marshal_mount filter j.mounts in
      let cgroups = marshal_list marshal_append_string mounts j.cgroups in
      let rules = marshal_list marshal_fs_rule cgroups j.fs_rules in
      marshal_if (marshal_append rules (fd_bytes j.fs_rules_fd)) j.seccomp_policy_path

  unfoldable pub minijail_size : Jail → ℕ
  minijail_size j = (minijail_marshal_helper (marshal_state_init 0) j).total

  -- What is written, and whether it was too much.
  unfoldable pub minijail_marshal : Jail → ℕ → Bytes × Bool
  minijail_marshal j available =
      let state = minijail_marshal_helper (marshal_state_init available) j in
      (state.buf, ltb available state.total)
