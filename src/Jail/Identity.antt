-- ===== src/Jail/Identity.antt =====
-- The calls of libminijail.c that set users, groups and capabilities.
use minijail.Base.{
  ℕ, true, false, List, [], ◌∷◌, Option, none, some, if◌then◌else◌, if◌then◌else◌, ◌==◌, length,
  Bytes,
}
use minijail.Jail.State.{Jail}
use minijail.Jail.Answer.{Answer, returned, refused, died, Host}
use minijail.Jail.Errno
use minijail.Jail.Lookup.{found, failed, out_of_fuel, lookup_user, lookup_group}

unfoldable pub minijail_change_uid : ℕ → Jail → Answer
minijail_change_uid uid j =
    if uid == 0
    then died
    else returned 0 (record j { uid = uid; flags = record j.flags { uid = true } })

unfoldable pub minijail_change_gid : ℕ → Jail → Answer
minijail_change_gid gid j =
    if gid == 0
    then died
    else returned 0 (record j { gid = gid; flags = record j.flags { gid = true } })

-- A size of 0 clears the list.
unfoldable pub gid_array : List ℕ → Option (List ℕ)
gid_array [] = none
gid_array (g ∷ gids) = some (g ∷ gids)

unfoldable pub minijail_set_supplementary_gids : List ℕ → Jail → Answer
unfolding gid_array
minijail_set_supplementary_gids list j =
    if j.flags.inherit_suppl_gids
    then died
    else if j.flags.keep_suppl_gids
    then died
    else returned 0 (record j {
      suppl_gid_list = gid_array list;
      suppl_gid_count = length list;
      flags = record j.flags { set_suppl_gids = true };
    })

unfoldable pub minijail_keep_supplementary_gids : Jail → Jail
minijail_keep_supplementary_gids j = record j { flags = record j.flags { keep_suppl_gids = true } }

-- strdup(3) and what comes behind it. The user identity is set by then.
unfoldable pub set_user : Host → Bytes → ℕ → Answer → Answer
set_user host user gid (returned code j) =
    if host.copies user
    then returned code (record j { user = some user; usergid = gid })
    else refused Errno.enomem (record j { user = none })
set_user host user gid answer = answer

-- The lookup never runs out of fuel where the system suggests a size above 0.
unfoldable pub minijail_change_user : Host → Bytes → Jail → Answer
unfolding minijail_change_uid set_user lookup_user
minijail_change_user host user j = elim (lookup_user host user) [
  | found (uid, gid) ↦ set_user host user gid (minijail_change_uid uid j)
  | failed code ↦ refused code j
  | out_of_fuel ↦ died
]

unfoldable pub minijail_change_group : Host → Bytes → Jail → Answer
unfolding minijail_change_gid lookup_group
minijail_change_group host group j = elim (lookup_group host group) [
  | found gid ↦ minijail_change_gid gid j
  | failed code ↦ refused code j
  | out_of_fuel ↦ died
]

unfoldable pub minijail_inherit_usergroups : Jail → Jail
minijail_inherit_usergroups j = record j { flags = record j.flags { inherit_suppl_gids = true } }

unfoldable pub minijail_use_caps : ℕ → Jail → Jail
minijail_use_caps capmask j =
    let overridden =
      if j.flags.capbset_drop
      then record j { cap_bset = 0; flags = record j.flags { capbset_drop = false } }
      else j in
    record overridden { caps = capmask; flags = record overridden.flags { use_caps = true } }

unfoldable pub minijail_capbset_drop : ℕ → Jail → Answer
minijail_capbset_drop capmask j =
    if j.flags.use_caps
    then died
    else returned 0
        (record j { cap_bset = capmask; flags = record j.flags { capbset_drop = true } })

unfoldable pub minijail_set_ambient_caps : Jail → Jail
minijail_set_ambient_caps j = record j { flags = record j.flags { set_ambient_caps = true } }

unfoldable pub minijail_skip_setting_securebits : ℕ → Jail → Jail
minijail_skip_setting_securebits mask j = record j { securebits_skip_mask = mask }
