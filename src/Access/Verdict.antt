-- ===== src/Access/Verdict.antt =====
-- path_access of kernel/src/fs.c against the rule of owner, group and others.
use stewieos.Prelude.{
  none, some, Bool, true, false, not, ◌&&◌, ◌||◌, ◌==◌, if◌then◌else◌, Result, ok, err, ◌≡◌, Option,
  Bool-cases, Errno, inl, refl, ◌∙◌, some, inr, ap,
}
use stewieos.Access.{
  Want, Bits, Owned, Place, Who, path_access, lacks, root_access, user_access, rdonly, noexec,
  mounted, Mount,
}

-- The permission bits that apply to a caller: its own, its group's, or everybody's.
abbrev pub class_of : Who → Owned → Bits
class_of who i =
    if who.t_uid == i.i_uid then i.usr else if who.t_gid == i.i_gid then i.grp else i.oth

abbrev pub is_root : Who → Bool
is_root who = who.t_uid == 0

-- The root of the file tree, where nothing is mounted.
abbrev pub at_top : Place → Bool
at_top p = p.at_root && not (mounted p.p_mount)

-- Writing needs a mount that is not read-only, and the class's bit unless the caller is root.
abbrev pub may_write : Who → Place → Bool
may_write who p =
    at_top p || (not (rdonly p.p_mount) && (is_root who || (class_of who p.inode).write))

-- Reading needs the class's bit unless the caller is root.
abbrev pub may_read : Who → Place → Bool
may_read who p = at_top p || (is_root who || (class_of who p.inode).read)

-- Executing needs somebody's bit for root; for others the class's bit and a mount without MS_NOEXEC.
abbrev pub may_exec : Who → Place → Bool
may_exec who p =
    at_top p
    || (if is_root who
        then p.inode.usr.exec || (p.inode.grp.exec || p.inode.oth.exec)
        else not (noexec p.p_mount) && (class_of who p.inode).exec)

abbrev pub implies : Bool → Bool → Bool
implies a b = not a || b

-- Whether everything asked for is permitted.
abbrev pub permitted : Who → Place → Want → Bool
permitted who p want =
    not want.other
    && (implies want.w_ok (may_write who p)
        && (implies want.r_ok (may_read who p) && implies want.x_ok (may_exec who p)))

abbrev pub granted : Result (Unit {0}) → Bool
granted (ok tt) = true
granted (err e) = false

mounted-rdonly : (m : Option Mount) → (mounted m && rdonly m) ≡ rdonly m
mounted-rdonly none = refl
mounted-rdonly (some m) = refl

mounted-noexec : (m : Option Mount) → (mounted m && noexec m) ≡ noexec m
mounted-noexec none = refl
mounted-noexec (some m) = refl

lacks-class_of :
    (who : Who) (i : Owned) (bit : Bits → Bool) → lacks who i bit ≡ not (bit (class_of who i))
unfolding lacks
lacks-class_of who i bit = elim (Bool-cases (who.t_uid == i.i_uid)) [
  | inl t ↦ rw t refl
  | inr t ↦ elim (Bool-cases (who.t_gid == i.i_gid)) [
    | inl u ↦ rw (t, u) refl
    | inr u ↦ rw (t, u) refl
  ]
]

-- The tests of one kind of access, before what is left to do.
once :
    (a b : Bool) (e : Errno) (rest : Result (Unit {0}))
    → granted (if a && not b then err e else rest) ≡ (implies a b && granted rest)
once false b e rest = refl
once true false e rest = refl
once true true e rest = refl

twice :
    (a m b : Bool) (e : Errno) (rest : Result (Unit {0}))
    → granted (if a && m then err e else if a && not b then err e else rest)
      ≡ (implies a (not m && b) && granted rest)
twice false m b e rest = refl
twice true true b e rest = refl
twice true false b e rest = once true b e rest

and_true : (a : Bool) → (a && true) ≡ a
and_true false = refl
and_true true = refl

user_access-granted :
    (who : Who) (p : Place) (want : Want)
    → granted (user_access who p want) ≡ (
        implies want.w_ok (not (rdonly p.p_mount) && (class_of who p.inode).write)
        && (implies want.r_ok (class_of who p.inode).read
            && implies want.x_ok (not (noexec p.p_mount) && (class_of who p.inode).exec)))
unfolding user_access
user_access-granted who p want =
    let c = class_of who p.inode in
    rw
      (
        lacks-class_of who p.inode (λ b. b.write),
        lacks-class_of who p.inode (λ b. b.read),
        lacks-class_of who p.inode (λ b. b.exec),
        mounted-rdonly p.p_mount,
        mounted-noexec p.p_mount,
      )
      (twice want.w_ok (rdonly p.p_mount) c.write Errno.eacces _
        ∙ ap (λ b. implies want.w_ok (not (rdonly p.p_mount) && c.write) && b)
            (once want.r_ok c.read Errno.eacces _
              ∙ ap (λ b. implies want.r_ok c.read && b)
                  (twice want.x_ok (noexec p.p_mount) c.exec Errno.eacces (ok tt) ∙ and_true _)))

guarded_all :
    (a b : Bool) (e : Errno) (rest : Result (Unit {0}))
    → granted (if a && b then err e else rest) ≡ (implies b (not a && true) && granted rest)
guarded_all false false e rest = refl
guarded_all false true e rest = refl
guarded_all true false e rest = refl
guarded_all true true e rest = refl

no_read : (r b : Bool) → b ≡ (implies r true && b)
no_read false b = refl
no_read true b = refl

either : (a b c : Bool) → (a || b || c) ≡ (a || (b || c))
either false b c = refl
either true b c = refl

root_access-granted :
    (p : Place) (want : Want)
    → granted (root_access p want) ≡ (
        implies want.w_ok (not (rdonly p.p_mount) && true)
        && (implies want.r_ok true
            && implies want.x_ok (p.inode.usr.exec || (p.inode.grp.exec || p.inode.oth.exec))))
unfolding root_access
root_access-granted p want =
    let any = p.inode.usr.exec || p.inode.grp.exec || p.inode.oth.exec in
    rw (mounted-rdonly p.p_mount, ← either p.inode.usr.exec p.inode.grp.exec p.inode.oth.exec)
      (guarded_all (rdonly p.p_mount) want.w_ok Errno.erofs _
        ∙ ap (λ b. implies want.w_ok (not (rdonly p.p_mount) && true) && b)
            (once want.x_ok any Errno.eacces (ok tt) ∙ (and_true _ ∙ no_read want.r_ok _)))

-- What is not asked for at all, and what the top of the tree allows.
asked :
    (w r x top a b c : Bool) (rest : Result (Unit {0}))
    → granted rest ≡ (implies w a && (implies r b && implies x c))
    → granted (if not (x || w || r) then ok tt else if top then ok tt else rest)
      ≡ (implies w (top || a) && (implies r (top || b) && implies x (top || c)))
asked false false false top a b c rest e = refl
asked false false true true a b c rest e = refl
asked false false true false a b c rest e = e
asked false true false true a b c rest e = refl
asked false true false false a b c rest e = e
asked false true true true a b c rest e = refl
asked false true true false a b c rest e = e
asked true false false true a b c rest e = refl
asked true false false false a b c rest e = e
asked true false true true a b c rest e = refl
asked true false true false a b c rest e = e
asked true true false true a b c rest e = refl
asked true true false false a b c rest e = e
asked true true true true a b c rest e = refl
asked true true true false a b c rest e = e

-- path_access returns 0 exactly when everything asked for is permitted.
pub path_access-permitted :
    (who : Who) (p : Place) (want : Want) → granted (path_access who p want) ≡ permitted who p want
unfolding path_access
path_access-permitted who p want = elim (Bool-cases want.other) [
  | inl t ↦ rw t refl
  | inr t ↦ elim (Bool-cases (who.t_uid == 0)) [
    | inl v ↦
        rw (t, v)
          (asked want.w_ok want.r_ok want.x_ok (at_top p) _ true _ _ (root_access-granted p want))
    | inr v ↦
        rw (t, v)
          (asked want.w_ok want.r_ok want.x_ok (at_top p) _ _ _ _ (user_access-granted who p want))
  ]
]
