-- ===== src/Config/Service/Steps.antt =====
-- src/interface/config.rs: what the calls on the directory and on the socket leave of the files.
use wireguard_rs.Base.{
  ℕ, Bool, true, false, Option, none, some, Bytes, bytes_eq, bytes_eq_iff, Bool-cases, Option-cases,
  arith, ◌≡◌, ◌≢◌, refl, ap, ◌∙◌, ◌⊎◌, ◌&&◌, if◌then◌else◌, inl, inr, is_some, Result, ok, err,
  Error,
}
use wireguard_rs.Base.Maps.{
  eq_bytes, lookup, insert, remove, lookup-insert, lookup-insert_self, lookup-remove,
}
use wireguard_rs.Base.Monad.{M}
use wireguard_rs.Config.Files.{Os, Files, Entry, Kind, Call, exists, with_mode, chmod, bind}
use wireguard_rs.Config.Service.{unwrapped, unwrap, create_missing, remove_existing}

-- What holds of an `Ok` and of the state that it leaves.
abbrev pub OkThen : {S A : Type 0} → (S → A → Type 0) → S × Result A → Type 0
OkThen Q (s, ok a) = Q s a
OkThen Q (s, err e) = Unit {0}

pub OkThen-map :
    {S A : Type 0} (Q R : S → A → Type 0)
    → ((s : S) (a : A) → Q s a → R s a)
    → (r : S × Result A) → OkThen Q r
    → OkThen R r
OkThen-map Q R f (s, ok a) h = f s a h
OkThen-map Q R f (s, err e) h = tt

abbrev pub mode_of : Option Entry → Option ℕ
mode_of none = none
mode_of (some entry) = some entry.mode

abbrev pub kind_of : Option Entry → Option Kind
kind_of none = none
kind_of (some entry) = some entry.kind

pub differs : (a b : Bytes) → bytes_eq a b ≡ false → a ≢ b
differs a b h e = ground (arith, h, bytes_eq_iff a b, e)

pub lookup-insert_other :
    (k j : Bytes) (v : Entry) (files : Files) → j ≢ k → lookup j (insert k v files) ≡ lookup j files
lookup-insert_other k j v files h = ground (arith, lookup-insert k j v files, bytes_eq_iff k j, h)

pub lookup-remove_other :
    (k j : Bytes) (files : Files) → j ≢ k → lookup j (remove k files) ≡ lookup j files
lookup-remove_other k j files h = ground (arith, lookup-remove k j files, bytes_eq_iff k j, h)

pub lookup-remove_self : (k : Bytes) (files : Files) → lookup k (remove k files) ≡ none
lookup-remove_self k files = ground (arith, lookup-remove k k files, bytes_eq_iff k k)

pub perform-OkThen :
    (Q : Files → Unit {0} → Type 0) (allowed : Bool) (after s : Files)
    → (allowed ≡ true → Q after tt)
    → OkThen Q (if allowed then (after, ok tt) else (s, err Error.os_error))
perform-OkThen Q true after s h = h refl
perform-OkThen Q false after s h = tt

pub unwrap-OkThen :
    {A : Type 0} (Q : Files → A → Type 0) (m : M Files A) (s : Files)
    → OkThen Q (m s)
    → OkThen Q (unwrap m s)
unwrap-OkThen {A} Q m s h = split (m s) h
  where
    split : (r : Files × Result A) → OkThen Q r → OkThen Q (unwrapped r)
    split (s', ok a) h = h
    split (s', err e) h = tt

module _ (dir path : Bytes) (before : Files) where
  -- Only the entries at the two paths have changed.
  abbrev pub Same : Files → Type 0
  Same files = (p : Bytes) → p ≢ dir → p ≢ path → lookup p files ≡ lookup p before

  abbrev pub Private : Files → Type 0
  Private files = Same files × (mode_of (lookup dir files) ≡ some 0o700)

  -- The path is free of what stood there.
  abbrev pub Prepared : Files → Type 0
  Prepared files = Private files × (lookup path files ≡ none)

  abbrev pub Listening : Files → Type 0
  Listening files = Private files × (kind_of (lookup path files) ≡ some Kind.socket)

module _ (os : Os) (dir path : Bytes) (apart : dir ≢ path) (before : Files) where
  Same-dir :
      (entry : Entry) (s : Files)
      → Same dir path before s
      → Same dir path before (insert dir entry s)
  Same-dir entry s h p off_dir off_path =
      lookup-insert_other dir p entry s off_dir ∙ h p off_dir off_path

  pub create_missing-Same :
      (s : Files)
      → Same dir path before s
      → OkThen (λ files u. Same dir path before files) (create_missing os dir s)
  create_missing-Same s h = elim (Bool-cases (exists dir s)) [
    | inl granted ↦ rw granted h
    | inr refused ↦
        rw refused
          (perform-OkThen (λ files u. Same dir path before files) _ _ s (λ granted. Same-dir _ s h))
  ]

  pub chmod-Private :
      (s : Files)
      → Same dir path before s
      → OkThen (λ files u. Private dir path before files) (chmod os dir 0o700 s)
  unfolding chmod
  chmod-Private s h =
      perform-OkThen (λ files u. Private dir path before files) _ _ s
        (λ granted. changed granted (Option-cases (lookup dir s)))
    where
      changed :
          (os.grants (Call.set_mode dir 0o700) && is_some (lookup dir s)) ≡ true
          → (lookup dir s ≡ none) ⊎ ((entry : Entry) × (lookup dir s ≡ some entry))
          → Private dir path before (with_mode dir 0o700 (lookup dir s) s)
      changed granted (inl e) = absurd (ground (arith, granted, e))
      changed granted (inr (entry, e)) =
          rw e (Same-dir _ s h, ap mode_of (lookup-insert_self dir _ s))

  remove-Private : (s : Files) → Private dir path before s → Private dir path before (remove path s)
  remove-Private s (h, mode) = (
    λ p off_dir off_path. lookup-remove_other path p s off_path ∙ h p off_dir off_path,
    ap mode_of (lookup-remove_other path dir s apart) ∙ mode,
  )

  pub remove_existing-Prepared :
      (s : Files)
      → Private dir path before s
      → OkThen (λ files u. Prepared dir path before files) (remove_existing os path s)
  remove_existing-Prepared s h = elim (Option-cases (lookup path s)) [
    | inl e ↦ rw e (h, e)
    | inr (entry, e) ↦ rw e (
        perform-OkThen (λ files u. Prepared dir path before files) _ _ s
          (λ granted. (remove-Private s h, lookup-remove_self path s)))
  ]

  pub bind-Listening :
      (s : Files)
      → Prepared dir path before s
      → OkThen (λ files u. Listening dir path before files) (bind os path s)
  bind-Listening s ((h, mode), free) =
      perform-OkThen (λ files u. Listening dir path before files) _ _ s
        (λ granted. (
          (
            λ p off_dir off_path. lookup-insert_other path p _ s off_path ∙ h p off_dir off_path,
            ap mode_of (lookup-insert_other path dir _ s apart) ∙ mode,
          ),
          ap kind_of (lookup-insert_self path _ s),
        ))
