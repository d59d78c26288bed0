-- ===== src/Jail/Sound/Users.antt =====
-- The calls that set users, groups and capabilities keep a jail sound.
use minijail.Base.{
  ℕ, false, List, [], ◌∷◌, ◌==◌, Bytes, ◌≡◌, ◌≢◌, refl, arith, length, Bool-cases, inl, inr,
}
use minijail.Jail.State.{Jail}
use minijail.Jail.Answer.{Answer, refused, died, Host}
use minijail.Jail.Lookup.{found, failed, out_of_fuel, Lookup, lookup_user, lookup_group}
use minijail.Jail.Identity.{
  minijail_change_uid, minijail_change_gid, gid_array, minijail_set_supplementary_gids, set_user,
  minijail_change_user, minijail_change_group, minijail_use_caps, minijail_capbset_drop,
}
use minijail.Jail.Sound.{IsSound, Keeps, sound, unchanged, partly, dies, Keeps-if, Counts}

nonzero : (n : ℕ) → (n == 0) ≡ false → n ≢ 0
nonzero n e = ground arith

pub minijail_change_uid-Keeps :
    (uid : ℕ) (j : Jail) → IsSound j → Keeps j (minijail_change_uid uid j)
unfolding minijail_change_uid
minijail_change_uid-Keeps uid j (l, m, r, f, g, u, i, o, c, p, a) =
    Keeps-if (uid == 0) (λ e. dies) (λ e. sound (l, m, r, f, g, nonzero uid e, i, o, c, p, a))

pub minijail_change_gid-Keeps :
    (gid : ℕ) (j : Jail) → IsSound j → Keeps j (minijail_change_gid gid j)
unfolding minijail_change_gid
minijail_change_gid-Keeps gid j (l, m, r, f, g, u, i, o, c, p, a) =
    Keeps-if (gid == 0) (λ e. dies) (λ e. sound (l, m, r, f, g, u, nonzero gid e, o, c, p, a))

Counts-gid_array : (gids : List ℕ) → Counts (length gids) (gid_array gids)
unfolding gid_array
Counts-gid_array [] = refl
Counts-gid_array (x ∷ gids) = refl

pub minijail_set_supplementary_gids-Keeps :
    (gids : List ℕ) (j : Jail) → IsSound j → Keeps j (minijail_set_supplementary_gids gids j)
unfolding minijail_set_supplementary_gids
minijail_set_supplementary_gids-Keeps gids j (l, m, r, f, g, u, i, o, c, p, a) =
    Keeps-if j.flags.inherit_suppl_gids (λ e. dies)
      (λ e.
        Keeps-if j.flags.keep_suppl_gids (λ d. dies)
          (λ d. sound (l, m, r, f, Counts-gid_array gids, u, i, o, c, p, a)))

-- The name of the user comes on top of the answer of `minijail_change_uid`.
set_user-Keeps :
    {j : Jail} {answer : Answer} (host : Host) (user : Bytes) (gid : ℕ)
    → Keeps j answer
    → Keeps j (set_user host user gid answer)
unfolding set_user
set_user-Keeps host user gid (sound s) = Keeps-if (host.copies user) (λ e. sound s) (λ e. partly s)
set_user-Keeps host user gid unchanged = unchanged
set_user-Keeps host user gid (partly s) = partly s
set_user-Keeps host user gid dies = dies

Keeps-lookup {ℓ} :
    {A : Type ℓ} {j : Jail} {f : A → Answer} (look : Lookup A)
    → ((a : A) → Keeps j (f a))
    → Keeps j (elim look [ found a ↦ f a | failed code ↦ refused code j | out_of_fuel ↦ died ])
Keeps-lookup (found a) h = h a
Keeps-lookup (failed code) h = unchanged
Keeps-lookup out_of_fuel h = dies

pub minijail_change_user-Keeps :
    (host : Host) (user : Bytes) (j : Jail) → IsSound j → Keeps j (minijail_change_user host user j)
unfolding minijail_change_user
minijail_change_user-Keeps host user j s =
    Keeps-lookup (lookup_user host user) (λ found_ids.
      set_user-Keeps host user found_ids.1 (minijail_change_uid-Keeps found_ids.0 j s))

pub minijail_change_group-Keeps :
    (host : Host) (group : Bytes) (j : Jail)
    → IsSound j
    → Keeps j (minijail_change_group host group j)
unfolding minijail_change_group
minijail_change_group-Keeps host group j s =
    Keeps-lookup (lookup_group host group) (λ gid. minijail_change_gid-Keeps gid j s)

pub minijail_use_caps-IsSound :
    (capmask : ℕ) (j : Jail) → IsSound j → IsSound (minijail_use_caps capmask j)
unfolding minijail_use_caps
minijail_use_caps-IsSound capmask j (l, m, r, f, g, u, i, o, c, p, a) =
    elim (Bool-cases j.flags.capbset_drop) [
      | inl e ↦ rw e (l, m, r, f, g, u, i, o, refl, p, a)
      | inr e ↦ rw e (l, m, r, f, g, u, i, o, refl, p, a)
    ]

pub minijail_capbset_drop-Keeps :
    (capmask : ℕ) (j : Jail) → IsSound j → Keeps j (minijail_capbset_drop capmask j)
unfolding minijail_capbset_drop
minijail_capbset_drop-Keeps capmask j (l, m, r, f, g, u, i, o, c, p, a) =
    Keeps-if j.flags.use_caps (λ e. dies) (λ e. sound (l, m, r, f, g, u, i, o, rw e refl, p, a))
