-- ===== src/Config/Loaded.antt =====
-- `Config::load` of src/config.cpp does what the file says.
use Prim.Native.String.{String}
use flowkernel.Base.{
  ◌≡◌, refl, ap, Option, none, some, Bool, true, false, if◌then◌else◌, Bool-cases, inl, inr,
}
use flowkernel.Config.{Yaml, Config, use_defaults}
use flowkernel.Config.Parse.{caught, parse_root, load_root, load}
use flowkernel.Config.Reads.{Reads, end-Reads, then-Reads, in_root-Reads}
use flowkernel.Config.Sections.{file_ok, config_of, expected}
use flowkernel.Config.Fields.{
  parse_server-Reads, parse_zenoh-Reads, parse_liveliness-Reads, parse_tui-Reads,
  parse_channels-Reads, parse_handlers-Reads,
}

module _ (y : Yaml) where
  parse_root-Reads :
      (root : y.Node) (config_path : String)
      → Reads
          (file_ok y root)
          (λ c. record (config_of y root config_path c) { loaded_path = c.loaded_path })
          (parse_root y root)
  unfolding parse_root
  parse_root-Reads root config_path =
      then-Reads _ _
        (in_root-Reads y (λ v c. record c { server = v }) (λ c. c.server) (λ c. refl)
          (parse_server-Reads y) (y.look root "server"))
        (then-Reads _ _
          (in_root-Reads y (λ v c. record c { zenoh = v }) (λ c. c.zenoh) (λ c. refl)
            (parse_zenoh-Reads y) (y.look root "zenoh"))
          (then-Reads _ _
            (in_root-Reads y (λ v c. record c { channels = v }) (λ c. c.channels) (λ c. refl)
              (parse_channels-Reads y) (y.look root "channels"))
            (then-Reads _ _
              (in_root-Reads y (λ v c. record c { liveliness = v }) (λ c. c.liveliness) (λ c. refl)
                (parse_liveliness-Reads y) (y.look root "liveliness"))
              (then-Reads _ _
                (in_root-Reads y (λ v c. record c { tui = v }) (λ c. c.tui) (λ c. refl)
                  (parse_tui-Reads y) (y.look root "tui"))
                (then-Reads _ _
                  (in_root-Reads y (λ v c. record c { handlers = v }) (λ c. c.handlers) (λ c. refl)
                    (parse_handlers-Reads y) (y.look root "handlers"))
                  (end-Reads))))))

  caught_threw :
      (x : Bool × Config) → x.0 ≡ false → caught y x ≡ (false, use_defaults (caught y x).1)
  unfolding use_defaults
  caught_threw (true, c) h = cc
  caught_threw (false, c) h = refl

  load_root_lem :
      (root : y.Node) (config_path : String) (c : Config) (b : Bool)
      → file_ok y root ≡ b
      → let result = load_root y config_path (some root) c in
        result ≡ (b, if b then config_of y root config_path c else use_defaults result.1)
  load_root_lem root config_path c true h =
      ap (caught y)
        ((parse_root-Reads root config_path).returns (record c { loaded_path = config_path }) h)
  load_root_lem root config_path c false h =
      let c' = record c { loaded_path = config_path } in
      caught_threw (parse_root y root c') ((parse_root-Reads root config_path).fails c' h)

  -- `load` on a path that the file system can look up, whatever yaml-cpp makes of it. Without a file it returns true, and if the
  -- file cannot be opened false, and only the path of the loaded file is emptied. With a file it
  -- returns true exactly if each section can be looked up, and is missing or in order: every key
  -- that the code asks it for can be looked up, and is missing or has a value of its type, and so
  -- for each entry of the handlers. Then the configuration names the file, every value is that of
  -- its key, or that of before where the key or its section is missing, and the handlers are the
  -- entries in their order, if the file has that section. Otherwise the configuration names no
  -- file.
  pub load_lem :
      (config_path : String) (c : Config)
      → load y config_path c
        ≡ expected y config_path c
            (y.exists config_path)
            (y.load_file config_path)
            (load y config_path c).1
  unfolding load
  load_lem config_path c = elim (Bool-cases (y.exists config_path)) [
    | inl there ↦ rw there (opened (y.load_file config_path))
    | inr absent ↦ rw absent
  ]
    where
      opened :
          (o : Option y.Node)
          → load_root y config_path o c
            ≡ expected y config_path c true o (load_root y config_path o c).1
      opened none = refl
      opened (some root) = load_root_lem root config_path c (file_ok y root) refl
