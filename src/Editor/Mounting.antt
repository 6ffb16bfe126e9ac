-- ===== src/Editor/Mounting.antt =====
-- transient/editor.py: what `_mount_root` leaves mounted.
use transient.Base.{
  ◌≡◌, refl, sym, ap, ◌∙◌, ◌≢◌, ◌⊎◌, inl, inr, Bool, true, false, Option, none, some, List, [], ◌∷◌,
  ◌++◌, append-nil, append_assoc, ◌==◌, if◌then◌else◌, ==_iff, Bool-cases, Option-cases, length,
  drop, is_empty, Text, lit, starts_with, strip_spaces, split, cut, Exn, runtime_error,
  assertion_error, Result, ok, err,
}
use transient.Store.Protocols.Choice.{cut-eq-some}
use transient.Base.Io.{continue, lift, pure, ◌>>=◌}
use mathlib.Core.Path.{subst}
use transient.Base.Io.Traces.{>>=-ok}
use transient.Editor.Guest.{run_command_in_guest_lem, run_command_in_guest-allowfail}
use transient.Editor.{
  to_outcome, Finished, EditAction, ssh_command, EditWorld, mount_command, umount_command,
  lsblk_command, run_command_in_guest, mounts, try_candidates, mount_root, fstype_and_path, cut_at,
  not_none,
}

-- A line in which `lsblk` tells the type and the path of a partition.
abbrev pub Tells : Text → Text → Text → Type 0
Tells line fstype path =
    (rest : Text) × (line
      ≡ lit "FSTYPE=\"" ++ (fstype ++ (lit "\" PATH=\"" ++ (path ++ (b'"' ∷ rest)))))

-- What was done with the first of some lines, and the lines that are left: a partition without a type is passed
-- over; any other is mounted, and then an unmount is sent, of which a failure is ignored.
pub data Tried : List Text → List EditAction → List Text → Type 0 where
  nothing : {lines : List Text} → Tried lines [] lines
  untyped :
      {line : Text} {lines rest : List Text} {actions : List EditAction} (path : Text)
      → Tells line [] path
      → Tried lines actions rest
      → Tried (line ∷ lines) actions rest
  undone :
      {line : Text} {lines rest : List Text} {actions : List EditAction} (fstype path : Text)
      → Tells line fstype path
      → Tried lines actions rest
      → Tried
          (line ∷ lines)
          (ssh_command (mount_command fstype path) ∷ ssh_command umount_command ∷ actions)
          rest

starts_with-append :
    (s pre : Text)
    → starts_with s pre ≡ true
    → (rest : Text) × (s ≡ pre ++ rest) × (drop (length pre) s ≡ rest)
unfolding starts_with
starts_with-append s [] h = (s, refl, refl)
starts_with-append [] (d ∷ pre) h = cc
starts_with-append (c ∷ s) (d ∷ pre) h = elim (Bool-cases (c == d)) [
  | inl e ↦
      let (rest, split_eq, dropped) = starts_with-append s pre (rw e at h) in
      (rest, rw ((==_iff c d).0 e) (ap (λ l. d ∷ l) split_eq), dropped)
  | inr e ↦ cc (rw e at h)
]

cut_at-append : (s t a b : Text) → cut_at s t ≡ some (a, b) → t ≡ a ++ (s ++ b)
unfolding cut_at
cut_at-append s [] a b h = cc
cut_at-append s (c ∷ t) a b h = elim (Bool-cases (starts_with (c ∷ t) s)) [
  | inl e ↦
      let (rest, split_eq, dropped) = starts_with-append (c ∷ t) s e in
      here rest split_eq dropped (rw (e, cut_at) at h)
  | inr e ↦ elim (Option-cases (cut_at s t)) [
    | inl none_there ↦ cc (rw (e, none_there, cut_at) at h)
    | inr ((x, y), found) ↦ further x y (cut_at-append s t x y found) (rw (e, found, cut_at) at h)
  ]
]
  where
    here :
        (rest : Text)
        → (c ∷ t) ≡ s ++ rest
        → drop (length s) (c ∷ t) ≡ rest
        → ◌≡◌ {A = Option (Text × Text)} (some ([], drop (length s) (c ∷ t))) (some (a, b))
        → (c ∷ t) ≡ a ++ (s ++ b)
    here rest split_eq dropped k =
        let no_more : [] ≡ a = cc k in
        let behind : drop (length s) (c ∷ t) ≡ b = cc k in
        rw (← no_more, ← behind, dropped) split_eq

    further :
        (x y : Text)
        → t ≡ x ++ (s ++ y)
        → ◌≡◌ {A = Option (Text × Text)} (some (c ∷ x, y)) (some (a, b))
        → (c ∷ t) ≡ a ++ (s ++ b)
    further x y split_eq k =
        let longer : (c ∷ x) ≡ a = cc k in
        let behind : y ≡ b = cc k in rw (← longer, ← behind) (ap (λ l. c ∷ l) split_eq)

eight : length (lit "FSTYPE=\"") ≡ 8
unfolding lit
eight = refl

fstype_and_path-Tells :
    (line fstype path : Text) → fstype_and_path line ≡ some (fstype, path) → Tells line fstype path
unfolding fstype_and_path
fstype_and_path-Tells line fstype path h = elim (Bool-cases (starts_with line (lit "FSTYPE=\""))) [
  | inr e ↦ cc (rw (e, fstype_and_path) at h)
  | inl e ↦ elim (Option-cases (cut_at (lit "\" PATH=\"") (drop 8 line))) [
    | inl n ↦ cc (rw (e, n, fstype_and_path) at h)
    | inr ((x, y), found) ↦ elim (Option-cases (cut b'"' y)) [
      | inl n ↦ cc (rw (e, found, n, fstype_and_path) at h)
      | inr ((z, r), last) ↦
          let (body, at, dropped) = starts_with-append line (lit "FSTYPE=\"") e in
          together x y z r body at (ap (λ n. drop n line) (sym eight) ∙ dropped)
            (cut_at-append (lit "\" PATH=\"") (drop 8 line) x y found)
            (cut-eq-some b'"' y z r last).0 (rw (e, found, last, fstype_and_path) at h)
    ]
  ]
]
  where
    together :
        (x y z r body : Text)
        → line ≡ lit "FSTYPE=\"" ++ body
        → drop 8 line ≡ body
        → drop 8 line ≡ x ++ (lit "\" PATH=\"" ++ y)
        → y ≡ z ++ (b'"' ∷ r)
        → ◌≡◌ {A = Option (Text × Text)} (some (x, z)) (some (fstype, path))
        → Tells line fstype path
    together x y z r body at dropped inner last k =
        let is_type : x ≡ fstype = cc k in
        let is_path : z ≡ path = cc k in
        (
          r,
          at
              ∙ ap (λ l. lit "FSTYPE=\"" ++ l)
                  (sym dropped
                    ∙ inner
                    ∙ ap (λ l. x ++ (lit "\" PATH=\"" ++ l)) last
                    ∙ rw (is_type, is_path) refl),
        )

-- The actions after an attempt to mount, and after it is undone
abbrev after_mount : List EditAction → Text → Text → List EditAction
after_mount h fstype path = h ++ (ssh_command (mount_command fstype path) ∷ [])

abbrev after_umount : List EditAction → Text → Text → List EditAction
after_umount h fstype path = after_mount h fstype path ++ (ssh_command umount_command ∷ [])

module _ (world : EditWorld) where
  -- A mount with its test of /etc/fstab that succeeded, after other actions.
  abbrev pub Succeeds : List EditAction → Text → Text → Type 0
  Succeeds before fstype path =
      (f : Finished) × (world before (ssh_command (mount_command fstype path)) ≡ ok f)
      × (f.returncode ≡ 0)

  -- Whether the partition of the next line is mounted at the end, or none.
  abbrev pub Leaves : List Text → List EditAction → List EditAction → Result (Unit {0}) → Type 0
  Leaves lines before after (ok u) =
      (line : Text) × (rest : List Text) × (fstype : Text) × (path : Text) × (lines ≡ line ∷ rest)
      × Tells line fstype path
      × (fstype ≢ [])
      × (after ≡ before ++ (ssh_command (mount_command fstype path) ∷ []))
      × Succeeds before fstype path
  Leaves lines before after (err e) = after ≡ before

  abbrev pub Ending : List Text → List EditAction → Result (Unit {0}) × List EditAction → Type 0
  Ending lines before r =
      (tries : List EditAction) × (rest : List Text) × Tried lines tries rest
      × Leaves rest (before ++ tries) r.1 r.0

  mounts_lem :
      (fstype path : Text) (h : List EditAction)
      → (b : Bool) × (mounts world fstype path h
          ≡ (ok b, h ++ (ssh_command (mount_command fstype path) ∷ [])))
        × (b ≡ true → Succeeds h fstype path)
  unfolding mounts
  mounts_lem fstype path h =
      let (r, e, k) = run_command_in_guest_lem world (mount_command fstype path) h in
      (to_outcome r, ap (λ p. (ok (to_outcome p.0), p.1)) e, succeeded r k)
    where
      succeeded :
          (r : Result (Option Text))
          → ((out : Option Text) → r ≡ ok out → Succeeds h fstype path)
          → to_outcome r ≡ true
          → Succeeds h fstype path
      succeeded (ok out) k yes_ok = k out refl
      succeeded (err e) k yes_ok = cc

  -- A line in front, with what was done with it
  Ending-after :
      (line : Text) (lines : List Text) (before : List EditAction) (fstype path : Text)
      (r : Result (Unit {0}) × List EditAction)
      → Tells line fstype path
      → Ending lines (after_umount before fstype path) r
      → Ending (line ∷ lines) before r
  Ending-after line lines before fstype path r tells (tries, rest, u, l) = (
    ssh_command (mount_command fstype path) ∷ ssh_command umount_command ∷ tries,
    rest,
    undone fstype path tells u,
    subst (λ b. Leaves rest b r.1 r.0)
        (append_assoc (after_mount before fstype path) (ssh_command umount_command ∷ []) tries
          ∙ append_assoc before (ssh_command (mount_command fstype path) ∷ [])
              (ssh_command umount_command ∷ tries))
        l,
  )

  Ending-err :
      (lines : List Text) (before : List EditAction) (e : Exn) → Ending lines before (err e, before)
  Ending-err lines before e = ([], lines, nothing, sym (append-nil before))

  try_candidates-Ending :
      (candidates : List Text) (h : List EditAction)
      → Ending candidates h (try_candidates world candidates h)
  unfolding try_candidates
  try_candidates-Ending [] h = Ending-err [] h (runtime_error (lit "Unable to locate /etc/fstab"))
  try_candidates-Ending (c ∷ cs) h = elim (Option-cases (fstype_and_path c)) [
    | inl e ↦ rw e (Ending-err (c ∷ cs) h assertion_error)
    | inr ((fstype, path), e) ↦
        rw e
          (attempt fstype path (fstype_and_path-Tells c fstype path e) (try_candidates-Ending cs))
  ]
    where
      mounted :
          (fstype path : Text)
          → Tells c fstype path
          → (fstype ≢ [])
          → (b : Bool) → (b ≡ true → Succeeds h fstype path)
          → Ending cs
              (after_umount h fstype path)
              (try_candidates world cs (after_umount h fstype path))
          → Ending (c ∷ cs) h (
              (if b
                  then pure tt
                  else (run_command_in_guest world umount_command true >>= λ _.
                      try_candidates world cs))
                (after_mount h fstype path))
      mounted fstype path tells typed true s next = (
        [],
        c ∷ cs,
        nothing,
        (
          c,
          cs,
          fstype,
          path,
          refl,
          tells,
          typed,
          rw (append-nil h) refl,
          rw (append-nil h) (s refl),
        ),
      )
      mounted fstype path tells typed false s next =
          let (out, u) =
            run_command_in_guest-allowfail world umount_command (after_mount h fstype path) in
          subst (Ending (c ∷ cs) h)
            (sym (
              >>=-ok (run_command_in_guest world umount_command true) (λ _. try_candidates world cs)
                (after_mount h fstype path) u))
            (Ending-after c cs h fstype path (try_candidates world cs (after_umount h fstype path))
              tells next)

      attempt :
          (fstype path : Text)
          → Tells c fstype path
          → ((h : List EditAction) → Ending cs h (try_candidates world cs h))
          → Ending (c ∷ cs) h (
              (if is_empty fstype
                  then try_candidates world cs
                  else (mounts world fstype path >>= λ mounted.
                      if mounted
                      then pure tt
                      else (run_command_in_guest world umount_command true >>= λ _.
                          try_candidates world cs)))
                h)
      attempt [] path tells next =
          let (tries, rest, u, l) = next h in (tries, rest, untyped path tells u, l)
      attempt (x ∷ xs) path tells next =
          let (b, e, s) = mounts_lem (x ∷ xs) path h in
          subst (Ending (c ∷ cs) h)
            (sym (
              >>=-ok (mounts world (x ∷ xs) path)
                (λ done.
                  if done
                  then pure tt
                  else (run_command_in_guest world umount_command true >>= λ _.
                      try_candidates world cs))
                h e))
            (mounted (x ∷ xs) path tells (λ q. cc) b s (next (after_umount h (x ∷ xs) path)))

  -- The lines that are tried: those that `lsblk` wrote, or none if it failed.
  abbrev pub Listed : List EditAction → List Text → Type 0
  Listed h lines =
      (lines ≡ [])
      ⊎ ((info : Text) × ((run_command_in_guest world lsblk_command false h).0 ≡ ok (some info))
          × (lines ≡ split 10 (strip_spaces info)))

  mount_root_lem :
      (out : Result (Option Text)) (g h : List EditAction)
      → (run_command_in_guest world lsblk_command false g).0 ≡ out
      → (lines : List Text) × Listed g lines
        × Ending lines h (
            continue out
              (λ o.
                lift (not_none o) >>= λ info. try_candidates world (split 10 (strip_spaces info)))
              h)
  unfolding ◌>>=◌ lift
  mount_root_lem (err e) g h same = ([], inl refl, Ending-err [] h e)
  mount_root_lem (ok none) g h same = ([], inl refl, Ending-err [] h assertion_error)
  mount_root_lem (ok (some info)) g h same = (
    split 10 (strip_spaces info),
    inr (info, same, refl),
    try_candidates-Ending (split 10 (strip_spaces info)) h,
  )

  -- However the guest behaves, `_mount_root` lists the partitions once, and goes through the lines that it was
  -- given in their order, up to one: a partition without a type is passed over, and for each other the partition
  -- of the type and the path that its line tells is mounted and then an unmount is sent, of which a failure is
  -- ignored. When `_mount_root` returns, the mount of the next line's partition, which has a type, has succeeded
  -- and is the last action; when it raises, nothing was done behind the last unmount.
  pub mount_root-Ending :
      (h : List EditAction)
      → (lines : List Text) × Listed h lines
        × Ending lines (h ++ (ssh_command lsblk_command ∷ [])) (mount_root world h)
  unfolding mount_root ◌>>=◌
  mount_root-Ending h =
      let (r, e, _) = run_command_in_guest_lem world lsblk_command h in
      let (lines, listed, ends) =
        mount_root_lem r h (h ++ (ssh_command lsblk_command ∷ [])) (ap (λ p. p.0) e) in
      (
        lines,
        listed,
        subst
            (λ p. Ending lines (h ++ (ssh_command lsblk_command ∷ [])) (
              continue p.0
                (λ o.
                  lift (not_none o) >>= λ info. try_candidates world (split 10 (strip_spaces info)))
                p.1))
            (sym e) ends,
      )
