-- ===== src/Jail/Wire/Encoding.antt =====
-- What the marshalling of libminijail.c writes, as one string of bytes.
use minijail.Base.{
  ℕ, suc, zero, ◌+◌, ◌-◌, min, Bool, true, false, List, [], ◌∷◌, ◌++◌, Option, none, some, length,
  take, Bytes, ltb, ◌≡◌, refl, sym, ap, ◌∙◌, append_assoc, append-nil, length-append, arith,
}
use minijail.Bpf.{Instr}
use minijail.Jail.State.{Jail, Mountpoint, FsRule}
use minijail.Jail.Wire.{
  le_bytes, fd_bytes, instr_bytes, array_bytes, MarshalState, marshal_state_init, marshal_append,
  marshal_append_string, marshal_if, marshal_data, marshal_mount, marshal_fs_rule, marshal_list,
  marshal_gids, marshal_filter, minijail_marshal_helper, minijail_size, minijail_marshal,
}

abbrev pub string_bytes : Bytes → Bytes
string_bytes s = s ++ (0 ∷ [])

abbrev pub if_bytes : Option Bytes → Bytes
if_bytes none = []
if_bytes (some s) = string_bytes s

abbrev pub data_bytes : Option Bytes → Bytes
data_bytes none = le_bytes 4 0
data_bytes (some options) = le_bytes 4 1 ++ string_bytes options

abbrev pub mount_bytes : Mountpoint → Bytes
mount_bytes m =
    string_bytes m.src
    ++ (string_bytes m.dest
        ++ (string_bytes m.kind ++ (data_bytes m.options ++ le_bytes 8 m.flags)))

abbrev pub rule_bytes : FsRule → Bytes
rule_bytes r = string_bytes r.path ++ le_bytes 8 r.landlock_flags

abbrev pub gids_bytes : Option (List ℕ) → Bytes
gids_bytes none = []
gids_bytes (some gids) = array_bytes (le_bytes 4) gids

abbrev pub filter_bytes : Bool → Option (List Instr) → Bytes
filter_bytes true (some filter) = array_bytes instr_bytes filter
filter_bytes true none = []
filter_bytes false filter = []

-- What follows the structure itself.
abbrev pub tail_bytes : Jail → Bytes
tail_bytes j =
    if_bytes j.user
    ++ (gids_bytes j.suppl_gid_list
        ++ (if_bytes j.chrootdir
            ++ (if_bytes j.hostname
                ++ (if_bytes j.alt_syscall_table
                    ++ (filter_bytes j.flags.seccomp_filter j.filter_prog
                        ++ (array_bytes mount_bytes j.mounts
                            ++ (array_bytes string_bytes j.cgroups
                                ++ (array_bytes rule_bytes j.fs_rules
                                    ++ (fd_bytes j.fs_rules_fd
                                        ++ if_bytes j.seccomp_policy_path)))))))))

min_zero : (n : ℕ) → min 0 n ≡ 0
min_zero n = omega arith

both_suc : (a n : ℕ) → min (suc a) (suc n) ≡ suc (min a n)
both_suc a n = omega arith

zero_sub : (n : ℕ) → 0 - n ≡ 0
zero_sub n = omega arith

sub_zero : (n : ℕ) → n - 0 ≡ n
sub_zero n = omega arith

suc_sub_suc : (a n : ℕ) → suc a - suc n ≡ a - n
suc_sub_suc a n = omega arith

sub_min : (a n : ℕ) → a - min a n ≡ a - n
sub_min a n = omega arith

sub_add : (a m n : ℕ) → a - m - n ≡ a - (m + n)
sub_add a m n = omega arith

add_assoc' : (a m n : ℕ) → a + m + n ≡ a + (m + n)
add_assoc' a m n = omega arith

add_zero : (n : ℕ) → n + 0 ≡ n
add_zero n = omega arith

min_zero_right : (n : ℕ) → min n 0 ≡ 0
min_zero_right n = omega arith

zero_add : (n : ℕ) → 0 + n ≡ n
zero_add n = omega arith

take_nil : (n : ℕ) → take {A = ℕ} n [] ≡ []
take_nil zero = refl
take_nil (suc n) = refl

take-min : (a : ℕ) (x : Bytes) → take (min a (length x)) x ≡ take a x
take-min zero x = rw (min_zero (length x)) refl
take-min (suc a) [] = rw (min_zero_right (suc a)) refl
take-min (suc a) (c ∷ x) = rw (both_suc a (length x)) (ap (◌∷◌ c) (take-min a x))

take-append : (a : ℕ) (x y : Bytes) → take a x ++ take (a - length x) y ≡ take a (x ++ y)
take-append zero [] y = refl
take-append zero (c ∷ x) y = rw (zero_sub (suc (length x))) refl
take-append (suc a) [] y = rw (sub_zero (suc a)) refl
take-append (suc a) (c ∷ x) y = rw (suc_sub_suc a (length x)) (ap (◌∷◌ c) (take-append a x y))

-- What a state is after `src`, with the bytes that fit.
appended :
    (state : MarshalState) (src : Bytes)
    → marshal_append state src ≡ record {
      available = state.available - length src;
      total = state.total + length src;
      buf = state.buf ++ take state.available src;
    }
unfolding marshal_append
appended state src = rw (sub_min state.available (length src), take-min state.available src) refl

-- Two strings one after the other are one.
append-append :
    (state : MarshalState) (a b : Bytes)
    → marshal_append (marshal_append state a) b ≡ marshal_append state (a ++ b)
append-append state a b =
    rw
      (
        appended state a,
        appended _ b,
        appended state (a ++ b),
        length-append a b,
        append_assoc state.buf (take state.available a) (take (state.available - length a) b),
        take-append state.available a b,
        sub_add state.available (length a) (length b),
        add_assoc' state.total (length a) (length b),
      )
      refl

append-nothing : (state : MarshalState) → marshal_append state [] ≡ state
append-nothing state =
    rw
      (
        appended state [],
        sub_zero state.available,
        add_zero state.total,
        take_nil state.available,
        append-nil state.buf,
      )
      refl

marshal_append_string-bytes :
    (state : MarshalState) (s : Bytes)
    → marshal_append_string state s ≡ marshal_append state (string_bytes s)
unfolding marshal_append_string
marshal_append_string-bytes state s = refl

marshal_if-bytes :
    (state : MarshalState) (o : Option Bytes)
    → marshal_if state o ≡ marshal_append state (if_bytes o)
unfolding marshal_if
marshal_if-bytes state none = sym (append-nothing state)
marshal_if-bytes state (some s) = marshal_append_string-bytes state s

marshal_gids-bytes :
    (state : MarshalState) (gids : Option (List ℕ))
    → marshal_gids state gids ≡ marshal_append state (gids_bytes gids)
unfolding marshal_gids
marshal_gids-bytes state none = sym (append-nothing state)
marshal_gids-bytes state (some gids) = refl

marshal_filter-bytes :
    (state : MarshalState) (b : Bool) (filter : Option (List Instr))
    → marshal_filter state b filter ≡ marshal_append state (filter_bytes b filter)
unfolding marshal_filter
marshal_filter-bytes state true none = sym (append-nothing state)
marshal_filter-bytes state true (some filter) = refl
marshal_filter-bytes state false filter = sym (append-nothing state)

marshal_data-bytes :
    (state : MarshalState) (o : Option Bytes)
    → marshal_data state o ≡ marshal_append state (data_bytes o)
unfolding marshal_data
marshal_data-bytes state none = refl
marshal_data-bytes state (some options) =
    marshal_append_string-bytes _ options
    ∙ append-append state (le_bytes 4 1) (string_bytes options)

marshal_mount-bytes :
    (state : MarshalState) (m : Mountpoint)
    → marshal_mount state m ≡ marshal_append state (mount_bytes m)
unfolding marshal_mount
marshal_mount-bytes state m =
    simp (marshal_append_string-bytes, marshal_data-bytes, append-append, append_assoc) refl

marshal_fs_rule-bytes :
    (state : MarshalState) (r : FsRule)
    → marshal_fs_rule state r ≡ marshal_append state (rule_bytes r)
unfolding marshal_fs_rule
marshal_fs_rule-bytes state r = simp (marshal_append_string-bytes, append-append) refl

marshal_list-bytes {ℓ} :
    {A : Type ℓ} (each : MarshalState → A → MarshalState) (bytes : A → Bytes)
    → ((state : MarshalState) (x : A) → each state x ≡ marshal_append state (bytes x))
    → (state : MarshalState) (xs : List A)
    → marshal_list each state xs ≡ marshal_append state (array_bytes bytes xs)
unfolding marshal_list array_bytes
marshal_list-bytes each bytes h state [] = sym (append-nothing state)
marshal_list-bytes each bytes h state (x ∷ xs) =
    marshal_list-bytes each bytes h (each state x) xs
    ∙ ap (λ t. marshal_append t (array_bytes bytes xs)) (h state x)
    ∙ append-append state (bytes x) (array_bytes bytes xs)

module _ (image : Jail → Bytes) where
  -- The structure and what follows it.
  abbrev pub encoding : Jail → Bytes
  encoding j = image j ++ tail_bytes j

  -- All the steps of the marshalling together append the encoding of the jail.
  pub minijail_marshal_helper-encoding :
      (state : MarshalState) (j : Jail)
      → minijail_marshal_helper image state j ≡ marshal_append state (encoding j)
  unfolding minijail_marshal_helper
  minijail_marshal_helper-encoding state j =
      simp
        (
          marshal_if-bytes,
          marshal_gids-bytes,
          marshal_filter-bytes,
          marshal_list-bytes marshal_mount mount_bytes marshal_mount-bytes,
          marshal_list-bytes marshal_append_string string_bytes marshal_append_string-bytes,
          marshal_list-bytes marshal_fs_rule rule_bytes marshal_fs_rule-bytes,
          append-append,
          append_assoc,
        )
        refl

  -- The state after marshalling into `available` bytes.
  marshalled :
      (j : Jail) (available : ℕ)
      → minijail_marshal_helper image (marshal_state_init available) j ≡ record {
        available = available - length (encoding j);
        total = length (encoding j);
        buf = take available (encoding j);
      }
  unfolding marshal_state_init
  marshalled j available =
      minijail_marshal_helper-encoding (marshal_state_init available) j
      ∙ appended (marshal_state_init available) (encoding j)
      ∙ rw (zero_add (length (encoding j))) refl

  -- minijail_size gives the length of the whole encoding. minijail_marshal writes as much of the
  -- encoding as there is room for and no more, and says that it failed exactly where minijail_size
  -- is more than the room.
  pub minijail_marshal-fits :
      (j : Jail) (available : ℕ)
      → (minijail_size image j ≡ length (encoding j))
        × ((minijail_marshal image j available).0 ≡ take available (encoding j))
        × ((minijail_marshal image j available).1 ≡ ltb available (minijail_size image j))
  unfolding minijail_size minijail_marshal
  minijail_marshal-fits j available = (
    ap (λ t. t.total) (marshalled j 0),
    ap (λ t. t.buf) (marshalled j available),
    ap (λ t. ltb available t.total) (marshalled j available)
        ∙ ap (λ t. ltb available t.total) (sym (marshalled j 0)),
  )
