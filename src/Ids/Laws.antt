-- ===== src/Ids/Laws.antt =====
-- What a process sees of its ids, and of the owners that it gives to files.
use hxroot.Ids.Set.{set_gid, setgid, setreuid, set_uid, setuid, setresuid}
use hxroot.Ids.Owner.{lchown, fchownat, chown, fchown}
use hxroot.Ids.Get.{getegid, getresuid, getgid, getuid, geteuid, getresgid}
use hxroot.Sys.{Kernel, ok, call}
use hxroot.Config.{is_fake_root, unset, Hx}
use hxroot.Base.{ℕ, ◌≡◌, refl, ◌≢◌, ◌⊎◌, true, arith, Text, inl, inr, ◌==◌, Bool-cases}

module _ (K : Kernel) (h : Hx) (u : ℕ) (s : K.State) where
  set_uid_lem : set_uid K h u s ≡ (ok (record h { uid = u }), (set_uid K h u s).1)
  unfolding set_uid call
  set_uid_lem = ground arith

  set_gid_lem : set_gid K h u s ≡ (ok (record h { gid = u }), (set_gid K h u s).1)
  unfolding set_gid call
  set_gid_lem = ground arith

  -- `setuid` always succeeds, whatever the host, and afterwards `getuid`, `geteuid` and `getresuid`
  -- answer the id that was set, without asking the host; the group and the root stay. The id is any
  -- but the one that reads -1 as an int.
  pub setuid-getuid :
      u ≢ unset
      → (h' : Hx) × (s' : K.State) × (setuid K h u s ≡ (ok h', s'))
        × (getuid K h' s' ≡ (ok u, s'))
        × (geteuid K h' s' ≡ (ok u, s'))
        × (getresuid K h' s' ≡ (ok (u, u, u), s'))
        × (h'.gid ≡ h.gid)
        × (h'.root ≡ h.root)
  unfolding setuid getuid geteuid getresuid
  setuid-getuid ne = (
    record h { uid = u },
    (set_uid K h u s).1,
    set_uid_lem,
    ground arith,
    ground arith,
    ground arith,
    refl,
    refl,
  )

  -- The same for groups.
  pub setgid-getgid :
      u ≢ unset
      → (h' : Hx) × (s' : K.State) × (setgid K h u s ≡ (ok h', s'))
        × (getgid K h' s' ≡ (ok u, s'))
        × (getegid K h' s' ≡ (ok u, s'))
        × (getresgid K h' s' ≡ (ok (u, u, u), s'))
        × (h'.uid ≡ h.uid)
        × (h'.root ≡ h.root)
  unfolding setgid getgid getegid getresgid
  setgid-getgid ne = (
    record h { gid = u },
    (set_gid K h u s).1,
    set_gid_lem,
    ground arith,
    ground arith,
    ground arith,
    refl,
    refl,
  )

  -- `setreuid` and `setresuid` read -1 as "leave it", and any other real id as `setuid` does; the
  -- effective and the saved id have no influence.
  pub setreuid_lem :
      (e v : ℕ)
      → (setreuid K h u e s ≡ setresuid K h u e v s)
        × (setreuid K h unset e s ≡ (ok h, s))
        × ((u ≡ unset) ⊎ (setreuid K h u e s ≡ setuid K h u s))
  unfolding setreuid setresuid setuid
  setreuid_lem e v = (
    refl,
    refl,
    elim (Bool-cases (u == unset)) [ inl q ↦ inl (ground arith) | inr q ↦ inr (rw q refl) ],
  )

-- A process that looks like root to itself changes no owner: what the four wrappers of src/chown.c
-- do, and what they answer, does not depend on the owner and the group that are asked for.
pub fake_root_chown :
    (K : Kernel) (h : Hx) (path : Text) (fd flag o g o' g' : ℕ) (s : K.State)
    → is_fake_root h ≡ true
    → (chown K h path o g s ≡ chown K h path o' g' s)
      × (lchown K h path o g s ≡ lchown K h path o' g' s)
      × (fchown K h fd o g s ≡ fchown K h fd o' g' s)
      × (fchownat K h fd path o g flag s ≡ fchownat K h fd path o' g' flag s)
unfolding chown lchown fchown fchownat
fake_root_chown K h path fd flag o g o' g' s e = simp e (refl, refl, refl, refl)
