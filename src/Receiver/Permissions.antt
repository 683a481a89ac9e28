-- ===== src/Receiver/Permissions.antt =====
-- Owner, group and mode of the socket: `chown_chmod` and `init` of src/io/receiver.cpp.
use x_cache_manager.Prelude.{
  ℕ, ◌/◌, ◌%◌, ◌≤◌, ◌≡◌, refl, ◌⊎◌, inl, inr, Bool, true, false, ◌&&◌, ◌||◌, not, Option, none,
  some, Str, ◌==◌, if◌then◌else◌, returns, throws, arith, Outcome, undefined, Bool-cases, subst,
  sym, ap, ◌∙◌, bind-returns, bind-throws,
}
use x_cache_manager.Receiver.{
  Error, Settings, File, System, set_owner, set_mode, change, chown_chmod, init, with_type,
  stat_failed, no_such_user, no_such_group, chown_failed, chmod_failed, unlink_failed, bind_failed,
  construct,
}
use x_cache_manager.Prelude.Integer.{ℤ, pos, negsuc}

-- The file has the owner and the group that the system names, and the permissions, and is of the
-- type that it was.
pub record HasSettings (system : System) (s : Settings) (f g : File) : Type 0 where
  pub owner : system.getpwnam s.socket_owner ≡ some g.st_uid
  pub group : system.getgrnam s.socket_group ≡ some g.st_gid
  pub perms : g.st_mode % 4096 ≡ s.socket_perms
  pub type : g.st_mode / 4096 % 16 ≡ f.st_mode / 4096 % 16

-- What an exception says of the system, and of the file that it leaves.
abbrev pub Explains : System → Settings → File → Error → File → Type 0
Explains system s f stat_failed g = (system.stat_works ≡ false) × (g ≡ f)
Explains system s f no_such_user g = (system.getpwnam s.socket_owner ≡ none) × (g ≡ f)
Explains system s f no_such_group g = (system.getgrnam s.socket_group ≡ none) × (g ≡ f)
Explains system s f chown_failed g = (system.chown_works ≡ false) × (g ≡ f)
Explains system s f chmod_failed g = (system.chmod_works ≡ false) × (g.st_mode ≡ f.st_mode)
Explains system s f unlink_failed g =
    (system.unlink_works ≡ false) × (system.unlink_absent ≡ false) × (g ≡ f)
Explains system s f bind_failed g = (system.bind_works ≡ false) × (g ≡ f)
Explains system s f e g = ⊥

abbrev pub Sets : System → Settings → File → Outcome Error File (Unit {0}) → Type 0
Sets system s f (returns u g) = HasSettings system s f g
Sets system s f (throws e g) = Explains system s f e g
Sets system s f undefined = ⊥

abbrev Owned : System → ℕ → ℕ → File → Type 0
Owned system uid gid f =
    ((g : File) × (set_owner system uid gid f ≡ returns tt g)
      × (g.st_uid ≡ uid)
      × (g.st_gid ≡ gid)
      × (g.st_mode ≡ f.st_mode))
    ⊎ ((set_owner system uid gid f ≡ throws chown_failed f) × (system.chown_works ≡ false))

set_owner-Owned : (system : System) (uid gid : ℕ) (f : File) → Owned system uid gid f
unfolding set_owner
set_owner-Owned system uid gid f =
    elim (Bool-cases (not (uid == f.st_uid) || not (gid == f.st_gid))) [
      | inr e ↦ inl (f, rw e refl, ground arith, ground arith, refl)
      | inl e ↦ elim (Bool-cases system.chown_works) [
        | inl w ↦ inl (record f { st_uid = uid; st_gid = gid }, ground arith, refl, refl, refl)
        | inr w ↦ inr (ground arith, w)
      ]
    ]

abbrev Moded : System → ℕ → ℕ → File → Type 0
Moded system desired mode f =
    ((set_mode system desired mode f ≡ returns tt (record f { st_mode = desired })))
    ⊎ ((set_mode system desired mode f ≡ throws chmod_failed f) × (system.chmod_works ≡ false))

set_mode-Moded :
    (system : System) (desired mode : ℕ) (f : File) → f.st_mode ≡ mode → Moded system desired mode f
unfolding set_mode
set_mode-Moded system desired mode f same = elim (Bool-cases (desired == mode)) [
  | inl e ↦ inl (ground arith)
  | inr e ↦ elim (Bool-cases system.chmod_works) [
    | inl w ↦ inl (ground arith)
    | inr w ↦ inr (ground arith, w)
  ]
]

module _ (system : System) (s : Settings) (f : File) (small : s.socket_perms ≤ 511) where
  abbrev desired : ℕ
  desired = with_type s.socket_perms f.st_mode

  settled :
      (uid gid : ℕ) (g : File)
      → system.getpwnam s.socket_owner ≡ some uid
      → system.getgrnam s.socket_group ≡ some gid
      → g.st_uid ≡ uid
      → g.st_gid ≡ gid
      → HasSettings system s f (record g { st_mode = desired })
  unfolding with_type
  settled uid gid g eu eg u v = record {
    owner = eu ∙ ap some (sym u);
    group = eg ∙ ap some (sym v);
    perms = omega arith;
    type = omega arith;
  }

  change-Sets :
      (u g : Option ℕ)
      → system.getpwnam s.socket_owner ≡ u
      → system.getgrnam s.socket_group ≡ g
      → Sets system s f (change system s.socket_perms u g f)
  unfolding change
  change-Sets none g eu eg = (eu, refl)
  change-Sets (some uid) none eu eg = (eg, refl)
  change-Sets (some uid) (some gid) eu eg = elim (set_owner-Owned system uid gid f) [
    | inr (e, w) ↦
        subst (Sets system s f) (sym (bind-throws (set_owner system uid gid) _ f f chown_failed e))
          (w, refl)
    | inl (g, e, u, v, m) ↦
        subst (Sets system s f) (sym (bind-returns (set_owner system uid gid) _ f g tt e))
          (mode_case uid gid g eu eg u v m)
  ]
    where
      mode_case :
          (uid gid : ℕ) (g : File)
          → system.getpwnam s.socket_owner ≡ some uid
          → system.getgrnam s.socket_group ≡ some gid
          → g.st_uid ≡ uid
          → g.st_gid ≡ gid
          → g.st_mode ≡ f.st_mode
          → Sets system s f (set_mode system desired f.st_mode g)
      mode_case uid gid g eu eg u v m = elim (set_mode-Moded system desired f.st_mode g m) [
        | inl e ↦ subst (Sets system s f) (sym e) (settled uid gid g eu eg u v)
        | inr (e, w) ↦ subst (Sets system s f) (sym e) (w, m)
      ]

  stat-Sets :
      (b : Bool)
      → system.stat_works ≡ b
      → Sets system s f (
          if b
          then change system s.socket_perms
              (system.getpwnam s.socket_owner)
              (system.getgrnam s.socket_group)
              f
          else throws stat_failed f)
  stat-Sets true e = change-Sets _ _ refl refl
  stat-Sets false e = (e, refl)

  chown_chmod-Sets : Sets system s f (chown_chmod system s f)
  unfolding chown_chmod
  chown_chmod-Sets = stat-Sets system.stat_works refl

construct-perms :
    (socket owner group : Str) (perms : ℤ) (s : Settings)
    → construct socket owner group perms ≡ some s
    → s.socket_perms ≤ 511
unfolding construct
construct-perms socket owner group (negsuc n) s e = ground arith
construct-perms socket owner group (pos n) s e = ground arith

-- For settings that the constructor accepts, init returns with the owner, the group and the
-- permissions asked for set on the socket and its file type kept, or throws an error that a
-- failing answer of the system explains, with the mode as it was.
pub init-Sets :
    (system : System) (socket owner group : Str) (perms : ℤ) (s : Settings) (f : File)
    → construct socket owner group perms ≡ some s
    → Sets system s f (init system s f)
unfolding init
init-Sets system socket owner group perms s f made =
    let settings = chown_chmod-Sets system s f (construct-perms socket owner group perms s made) in
    guarded_by (system.unlink_works) system.unlink_absent refl refl _
      (bound system.bind_works refl settings)
  where
    bound :
        (b : Bool)
        → system.bind_works ≡ b
        → Sets system s f (chown_chmod system s f)
        → Sets system s f (if b then chown_chmod system s f else throws bind_failed f)
    bound true e settings = settings
    bound false e settings = (e, refl)

    guarded_by :
        (a b : Bool)
        → system.unlink_works ≡ a
        → system.unlink_absent ≡ b
        → (o : Outcome Error File (Unit {0})) → Sets system s f o
        → Sets system s f (if not a && not b then throws unlink_failed f else o)
    guarded_by true b x y o p = p
    guarded_by false true x y o p = p
    guarded_by false false x y o p = (x, y, refl)
