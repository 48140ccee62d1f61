-- ===== src/Config/Service/Removal.antt =====
-- src/interface/config.rs: `new` and `drop` of the configuration service, taken together.
use wireguard_rs.Base.{
  ℕ, Bool, true, false, Option, none, some, Bytes, Option-cases, ◌≡◌, ◌≢◌, refl, sym, subst, ap,
  ◌∙◌, ◌∷◌, [], if◌then◌else◌, inl, inr, Result, ok, err, Error,
}
use wireguard_rs.Base.Maps.{eq_bytes, lookup}
use wireguard_rs.Base.Monad.{M, then_known_cases, then_cases}
use wireguard_rs.Base.Preserves.{Preserves, seq-Preserves}
use wireguard_rs.Config.Files.{
  Os, Files, Entry, Kind, Call, exists, unlinkable, with_mode, with_contents, create_file, chmod,
  write_all, remove_file,
}
use wireguard_rs.Config.Service.{
  wireguard_dir, socket_path, ConfigurationService, remove_existing, write_name_file, new, drop,
}
use wireguard_rs.Config.Service.Steps.{
  OkThen, OkThen-map, kind_of, mode_of, lookup-insert_other, lookup-remove_self,
  lookup-remove_other,
}
use wireguard_rs.Config.Service.Lifecycle.{Serving, serve-Serving, dir≢socket}

abbrev done_or : Bool → Files → Files → Files × Result (Unit {0})
done_or allowed after s = if allowed then (after, ok tt) else (s, err Error.os_error)

abbrev if_there : Bool → M Files (Unit {0}) → M Files (Unit {0})
if_there there removal s = if there then removal s else (s, ok tt)

module _ (os : Os) (name p : Bytes) (apart : p ≢ name) (before : Files) where
  -- What stands at a path beside the one that is written.
  abbrev Kept : Files → Type 0
  Kept files = lookup p files ≡ lookup p before

  perform-Kept :
      (allowed : Bool) (after s : Files) → Kept after → Kept s → Kept (done_or allowed after s).0
  perform-Kept true after s done kept = done
  perform-Kept false after s done kept = kept

  chmod-Kept : (mode : ℕ) → Preserves Kept (chmod os name mode)
  unfolding chmod
  chmod-Kept mode s h = perform-Kept _ _ s (changed (lookup name s)) h
    where
      changed : (o : Option Entry) → Kept (with_mode name mode o s)
      changed none = h
      changed (some entry) = lookup-insert_other name p _ s apart ∙ h

  write_all-Kept : (text : Bytes) → Preserves Kept (write_all os name text)
  write_all-Kept text s h = perform-Kept _ _ s (changed (lookup name s)) h
    where
      changed : (o : Option Entry) → Kept (with_contents name text o s)
      changed none = h
      changed (some entry) = lookup-insert_other name p _ s apart ∙ h

  create_file-Kept : Preserves Kept (create_file os name)
  create_file-Kept s h = perform-Kept _ _ s (lookup-insert_other name p _ s apart ∙ h) h

  written-Kept :
      (interface_name : Bytes) → Preserves Kept (write_name_file os (some name) interface_name)
  unfolding write_name_file
  written-Kept interface_name = seq-Preserves Kept _ _ create_file-Kept (
      seq-Preserves Kept _ _ (chmod-Kept 400)
        (seq-Preserves Kept _ _ (write_all-Kept interface_name) (write_all-Kept (0x0a ∷ []))))

  remove_existing-Kept : Preserves Kept (remove_existing os name)
  remove_existing-Kept s h = go (exists name s)
    where
      go : (there : Bool) → Kept (if_there there (remove_file os name) s).0
      go true = perform-Kept _ _ s (lookup-remove_other name p s apart ∙ h) h
      go false = h

write_name_file-Kept :
    (os : Os) (name_file : Option Bytes) (interface_name p : Bytes) (s : Files)
    → name_file ≢ some p
    → lookup p (write_name_file os name_file interface_name s).0 ≡ lookup p s
unfolding write_name_file
write_name_file-Kept os none interface_name p s apart = refl
write_name_file-Kept os (some name) interface_name p s apart =
    written-Kept os name p (λ e. apart (ap some (sym e))) s interface_name s refl

abbrev unlinkable_at : Option Kind → Bool
unlinkable_at none = false
unlinkable_at (some kind) = unlinkable kind

removes_socket :
    (os : Os) (path : Bytes) (s : Files)
    → os.grants (Call.unlink path) ≡ true
    → kind_of (lookup path s) ≡ some Kind.socket
    → lookup path (remove_existing os path s).0 ≡ none
removes_socket os path s granted kind = elim (Option-cases (lookup path s)) [
  | inl e ↦ rw e e
  | inr (entry, e) ↦
      let unlinked : unlinkable entry.kind ≡ true = ap unlinkable_at (sym (ap kind_of e) ∙ kind) in
      rw (e, granted, unlinked) (lookup-remove_self path s)
]

module _ (os : Os) (name_file : Option Bytes) (name : Bytes) where
  -- What `new` has made, with the files after the name file was written.
  abbrev Made : Bytes → Files → Files → ConfigurationService → Type 0
  Made p before files service =
      (named : Files) × (lookup p named ≡ lookup p before) × Serving os name named files service

  new-Made :
      (p : Bytes) (before : Files)
      → name_file ≢ some p
      → OkThen (Made p before) (new os name_file name before)
  unfolding new
  new-Made p before off_name =
      then_known_cases (OkThen (Made p before)) (λ r. lookup p r.0 ≡ lookup p before) _ _ before
        (write_name_file-Kept os name_file name p before off_name) (λ s e h. tt)
        (λ s kept.
          OkThen-map (Serving os name s) (Made p before) (λ files service h. (s, kept, h)) _
            (serve-Serving os name s))

  abbrev pub Listens : Files → ConfigurationService → Type 0
  Listens files service = kind_of (lookup (socket_path name files) files) ≡ some Kind.socket

  pub new-Listens : (before : Files) → OkThen Listens (new os name_file name before)
  unfolding new
  new-Listens before =
      then_cases (OkThen Listens) _ _ before (λ s e h. tt)
        (λ s h.
          OkThen-map (Serving os name s) Listens (λ files service h. h.0.1) _
            (serve-Serving os name s))

module _ (os : Os) (name_file : Option Bytes) (name : Bytes) (before files : Files)
    (service : ConfigurationService) where
  -- After `new` succeeds the directory is open to its owner only and the socket listens in it; what
  -- `drop` then leaves has no socket, if the system lets it be removed, the same directory, and at
  -- every path beside these and the name file what there was before `new`.
  pub drop-new :
      new os name_file name before ≡ (files, ok service)
      → os.grants (Call.unlink (socket_path name files)) ≡ true
      → (p : Bytes) → name_file ≢ some p
      → p ≢ wireguard_dir files
      → p ≢ socket_path name files
      → (mode_of (lookup (wireguard_dir files) files) ≡ some 0o700)
        × (kind_of (lookup (socket_path name files) files) ≡ some Kind.socket)
        × (lookup (socket_path name files) (drop os service files) ≡ none)
        × (lookup (wireguard_dir files) (drop os service files)
            ≡ lookup (wireguard_dir files) files)
        × (lookup p (drop os service files) ≡ lookup p before)
  unfolding drop
  drop-new made granted p off_name off_dir off_path =
      let made_of : Made os name_file name p before files service =
        subst (OkThen (Made os name_file name p before)) made
          (new-Made os name_file name p before off_name) in
      let (named, kept, (((same, mode), heard), service_name)) = made_of in
      let path = socket_path name files in
      let dropped : drop os service files ≡ (remove_existing os path files).0 =
        ap (λ n. (remove_existing os (socket_path n files) files).0) service_name in
      rw dropped (
        mode,
        heard,
        removes_socket os path files granted heard,
        remove_existing-Kept os path (wireguard_dir files) (dir≢socket name files) files files refl,
        remove_existing-Kept os path p off_path files files refl ∙ same p off_dir off_path ∙ kept,
      )
