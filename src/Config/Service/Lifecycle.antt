-- ===== src/Config/Service/Lifecycle.antt =====
-- src/interface/config.rs: the socket of the configuration service, over its life.
use wireguard_rs.Base.{Bool, true, false, Bytes, ◌≡◌, ◌≢◌, refl, sym, subst, is_some}
use wireguard_rs.Base.Maps.{eq_bytes}
use wireguard_rs.Base.Monad.{known_cases, then_known_cases, get_cases}
use wireguard_rs.Config.Text.{ascii}
use wireguard_rs.Config.Files.{Os, Files, exists, join, bind}
use wireguard_rs.Config.Service.{
  run_path, get_run_path, wireguard_dir, socket_path, set_extension, ConfigurationService, get_path,
  spawn, listen, serve,
}
use wireguard_rs.Config.Service.Steps.{
  OkThen, Same, Private, Prepared, Listening, differs, create_missing-Same, chmod-Private,
  remove_existing-Prepared, bind-Listening, unwrap-OkThen, perform-OkThen,
}

-- The directory, the socket and `/run` are three paths.
run≢dir : (b : Bool) → ascii "/run" ≢ join (run_path b) (ascii "wireguard")
run≢dir true = differs _ _ refl
run≢dir false = differs _ _ refl

run≢path :
    (b : Bool) (name : Bytes) → ascii "/run" ≢ join (join (run_path b) (ascii "wireguard")) name
run≢path true name = differs _ _ refl
run≢path false name = differs _ _ refl

dir≢path :
    (b : Bool) (name : Bytes)
    → join (run_path b) (ascii "wireguard") ≢ join (join (run_path b) (ascii "wireguard")) name
dir≢path true name = differs _ _ refl
dir≢path false name = differs _ _ refl

pub dir≢socket : (name : Bytes) (files : Files) → wireguard_dir files ≢ socket_path name files
unfolding wireguard_dir socket_path get_run_path
dir≢socket name files = dir≢path (exists (ascii "/run") files) (set_extension name (ascii "sock"))

module _ (os : Os) (name : Bytes) where
  abbrev PreparedAt : Files → Files → Bytes → Type 0
  PreparedAt before files path =
      (path ≡ socket_path name before)
      × Prepared (wireguard_dir before) (socket_path name before) before files

  get_path-Prepared : (s : Files) → OkThen (PreparedAt s) (get_path os name s)
  unfolding get_path get_run_path wireguard_dir socket_path
  get_path-Prepared s =
      let dir = wireguard_dir s in
      let path = socket_path name s in
      let apart = dir≢socket name s in
      get_cases (OkThen (PreparedAt s)) _ s (
        then_known_cases (OkThen (PreparedAt s)) (OkThen (λ files u. Same dir path s files)) _ _ s
          (create_missing-Same os dir path apart s s (λ p off_dir off_path. refl)) (λ s' e h. tt)
          (λ s₁ same.
            then_known_cases (OkThen (PreparedAt s)) (OkThen (λ files u. Private dir path s files))
              _ _ s₁ (chmod-Private os dir path apart s s₁ same) (λ s' e h. tt)
              (λ s₂ private.
                then_known_cases (OkThen (PreparedAt s))
                  (OkThen (λ files u. Prepared dir path s files)) _ _ s₂
                  (remove_existing-Prepared os dir path apart s s₂ private) (λ s' e h. tt)
                  (λ s₃ prepared. (refl, prepared)))))

  -- Once the socket listens, with regard to the files after `WG_TUN_NAME_FILE` was written.
  abbrev pub Served : Files → Files → Type 0
  Served before files = Listening (wireguard_dir files) (socket_path name files) before files

  stays-Served :
      (before files : Files)
      → Listening (wireguard_dir before) (socket_path name before) before files
      → Served before files
  unfolding get_run_path wireguard_dir socket_path
  stays-Served before files h =
      let b = exists (ascii "/run") before in
      let same =
        h.0.0 (ascii "/run") (run≢dir b) (run≢path b (set_extension name (ascii "sock"))) in
      subst
        (λ o.
          Listening (join (run_path (is_some o)) (ascii "wireguard"))
            (join (join (run_path (is_some o)) (ascii "wireguard"))
              (set_extension name (ascii "sock")))
            before files)
        (sym same) h

  abbrev pub Serving : Files → Files → ConfigurationService → Type 0
  Serving before files service = Served before files × (service.interface_name ≡ name)

  listen-Serving :
      (before s : Files)
      → Prepared (wireguard_dir before) (socket_path name before) before s
      → OkThen (Serving before) (listen os name (socket_path name before) s)
  unfolding listen spawn wireguard_dir get_run_path socket_path
  listen-Serving before s h =
      let dir = wireguard_dir before in
      let path = socket_path name before in
      let apart = dir≢socket name before in
      let Heard = λ (files : Files) (u : Unit {0}). Listening dir path before files in
      then_known_cases (OkThen (Serving before)) (OkThen Heard) _ _ s
        (unwrap-OkThen Heard (bind os path) s (bind-Listening os dir path apart before s h))
        (λ s' e h'. tt)
        (λ s₁ heard.
          then_known_cases (OkThen (Serving before)) (OkThen Heard) _ _ s₁
            (unwrap-OkThen Heard (spawn os) s₁ (perform-OkThen Heard _ _ s₁ (λ granted. heard)))
            (λ s' e h'. tt) (λ s₂ heard. (stays-Served before s₂ heard, refl)))

  pub serve-Serving : (s : Files) → OkThen (Serving s) (serve os name s)
  unfolding serve
  serve-Serving s =
      known_cases (OkThen (Serving s)) (OkThen (PreparedAt s)) _ _ s
        (unwrap-OkThen (PreparedAt s) (get_path os name) s (get_path-Prepared s)) (λ s' e h. tt)
        (λ s₁ path h.
          subst (λ p. OkThen (Serving s) (listen os name p s₁)) (sym h.0) (listen-Serving s s₁ h.1))
