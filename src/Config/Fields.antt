-- ===== src/Config/Fields.antt =====
-- Each parser of src/config.cpp reads its section.
use flowkernel.Base.{
  ◌≡◌, refl, sym, ap, List, [], ◌∷◌, ◌++◌, map, append-nil, append_assoc, Bool, true, false,
}
use flowkernel.Config.{Yaml, HandlerConfig, new_handler}
use flowkernel.Config.Parse.{
  push_back, parse_server, parse_zenoh, parse_critical, parse_normal, parse_background,
  parse_channels, parse_liveliness, parse_tui, parse_handler, parse_each, parse_handlers,
}
use flowkernel.Config.Reads.{
  Reads, Reads-same, end-Reads, then-Reads, section-Reads, text-Reads, number-Reads, flag-Reads,
}
use flowkernel.Config.Sections.{
  handlers_ok, server_ok, server_of, zenoh_ok, zenoh_of, critical_ok, critical_of, normal_ok,
  normal_of, background_ok, background_of, channels_ok, channels_of, liveliness_ok, liveliness_of,
  tui_ok, tui_of, handler_ok, handler_of, handlers_of,
}

module _ (y : Yaml) where
  pub parse_server-Reads :
      (node : y.Node) → Reads (server_ok y node) (server_of y node) (parse_server y node)
  unfolding parse_server
  parse_server-Reads node =
      then-Reads _ _
        (text-Reads y (λ v s. record s { name = v }) (λ s. s.name) (λ s. refl) "name" node)
        (then-Reads _ _
          (text-Reads y (λ v s. record s { version = v }) (λ s. s.version) (λ s. refl) "version"
            node)
          (then-Reads _ _
            (text-Reads y (λ v s. record s { log_level = v }) (λ s. s.log_level) (λ s. refl)
              "log_level" node)
            (end-Reads)))

  pub parse_zenoh-Reads :
      (node : y.Node) → Reads (zenoh_ok y node) (zenoh_of y node) (parse_zenoh y node)
  unfolding parse_zenoh
  parse_zenoh-Reads node =
      text-Reads y (λ v s. record s { config_path = v }) (λ s. s.config_path) (λ s. refl)
        "config_path" node

  parse_critical-Reads :
      (node : y.Node)
      → Reads
          (critical_ok y node)
          (λ s. record s { critical = critical_of y node s.critical })
          (parse_critical y node)
  unfolding parse_critical
  parse_critical-Reads node =
      then-Reads _ _
        (number-Reads y (λ v s. record s { critical = record s.critical { queue_size = v } })
          (λ s. s.critical.queue_size) (λ s. refl) "queue_size" node)
        (then-Reads _ _
          (text-Reads y (λ v s. record s { critical = record s.critical { wakeup_mode = v } })
            (λ s. s.critical.wakeup_mode) (λ s. refl) "wakeup_mode" node)
          (end-Reads))

  parse_normal-Reads :
      (node : y.Node)
      → Reads
          (normal_ok y node)
          (λ s. record s { normal = normal_of y node s.normal })
          (parse_normal y node)
  unfolding parse_normal
  parse_normal-Reads node =
      number-Reads y (λ v s. record s { normal = record s.normal { queue_size = v } })
        (λ s. s.normal.queue_size) (λ s. refl) "queue_size" node

  parse_background-Reads :
      (node : y.Node)
      → Reads
          (background_ok y node)
          (λ s. record s { background = background_of y node s.background })
          (parse_background y node)
  unfolding parse_background
  parse_background-Reads node =
      then-Reads _ _
        (text-Reads y (λ v s. record s { background = record s.background { strategy = v } })
          (λ s. s.background.strategy) (λ s. refl) "strategy" node)
        (then-Reads _ _
          (number-Reads y (λ v s. record s { background = record s.background { max_age_ms = v } })
            (λ s. s.background.max_age_ms) (λ s. refl) "max_age_ms" node)
          (end-Reads))

  pub parse_liveliness-Reads :
      (node : y.Node)
      → Reads (liveliness_ok y node) (liveliness_of y node) (parse_liveliness y node)
  unfolding parse_liveliness
  parse_liveliness-Reads node =
      then-Reads _ _
        (text-Reads y (λ v s. record s { key = v }) (λ s. s.key) (λ s. refl) "key" node)
        (then-Reads _ _
          (text-Reads y (λ v s. record s { estop_publish_path = v }) (λ s. s.estop_publish_path)
            (λ s. refl) "estop_publish_path" node)
          (end-Reads))

  pub parse_tui-Reads : (node : y.Node) → Reads (tui_ok y node) (tui_of y node) (parse_tui y node)
  unfolding parse_tui
  parse_tui-Reads node =
      then-Reads _ _
        (flag-Reads y (λ v s. record s { enabled = v }) (λ s. s.enabled) (λ s. refl) "enabled" node)
        (then-Reads _ _
          (number-Reads y (λ v s. record s { refresh_rate_ms = v }) (λ s. s.refresh_rate_ms)
            (λ s. refl) "refresh_rate_ms" node)
          (then-Reads _ _
            (flag-Reads y (λ v s. record s { show_banner = v }) (λ s. s.show_banner) (λ s. refl)
              "show_banner" node)
            (then-Reads _ _
              (text-Reads y (λ v s. record s { color_theme = v }) (λ s. s.color_theme) (λ s. refl)
                "color_theme" node)
              (end-Reads))))

  parse_handler-Reads :
      (node : y.Node) → Reads (handler_ok y node) (handler_of y node) (parse_handler y node)
  unfolding parse_handler
  parse_handler-Reads node =
      then-Reads _ _
        (text-Reads y (λ v s. record s { path = v }) (λ s. s.path) (λ s. refl) "path" node)
        (then-Reads _ _
          (text-Reads y (λ v s. record s { priority = v }) (λ s. s.priority) (λ s. refl) "priority"
            node)
          (then-Reads _ _
            (text-Reads y (λ v s. record s { description = v }) (λ s. s.description) (λ s. refl)
              "description" node)
            (end-Reads)))

  pub parse_channels-Reads :
      (node : y.Node) → Reads (channels_ok y node) (channels_of y node) (parse_channels y node)
  unfolding parse_channels
  parse_channels-Reads node =
      then-Reads _ _
        (section-Reads y (critical_ok y) (critical_of y) (λ v s. record s { critical = v })
          (λ s. s.critical) (λ s. refl) (parse_critical y) parse_critical-Reads
          (y.look node "critical"))
        (then-Reads _ _
          (section-Reads y (normal_ok y) (normal_of y) (λ v s. record s { normal = v })
            (λ s. s.normal) (λ s. refl) (parse_normal y) parse_normal-Reads (y.look node "normal"))
          (then-Reads _ _
            (section-Reads y (background_ok y) (background_of y)
              (λ v s. record s { background = v }) (λ s. s.background) (λ s. refl)
              (parse_background y) parse_background-Reads (y.look node "background"))
            end-Reads))

  push_back-threw :
      (x : Bool × HandlerConfig) (hs : List HandlerConfig)
      → x.0 ≡ false
      → (push_back y x hs).0 ≡ false
  push_back-threw (true, hc) hs h = cc
  push_back-threw (false, hc) hs h = refl

  -- The body of the loop over the entries.
  push_back-Reads :
      (node : y.Node)
      → Reads
          (handler_ok y node)
          (λ hs. hs ++ handler_of y node new_handler ∷ [])
          (λ hs. push_back y (parse_handler y node new_handler) hs)
  push_back-Reads node =
      let r = parse_handler-Reads node in
      record {
        returns = λ hs h. ap (λ x. push_back y x hs) (r.returns new_handler h);
        fails =
            λ hs h. push_back-threw (parse_handler y node new_handler) hs (r.fails new_handler h);
      }

  parse_each-Reads :
      (nodes : List y.Node)
      → Reads
          (handlers_ok y nodes)
          (λ hs. hs ++ map (λ entry. handler_of y entry new_handler) nodes)
          (parse_each y nodes)
  unfolding parse_each
  parse_each-Reads [] = Reads-same (λ hs. sym (append-nil hs)) end-Reads
  parse_each-Reads (node ∷ nodes) =
      Reads-same (λ hs. append_assoc hs (handler_of y node new_handler ∷ []) _)
        (then-Reads _ _ (push_back-Reads node) (parse_each-Reads nodes))

  pub parse_handlers-Reads :
      (node : y.Node)
      → Reads (handlers_ok y (y.elements node)) (handlers_of y node) (parse_handlers y node)
  unfolding parse_handlers
  parse_handlers-Reads node =
      let r = parse_each-Reads (y.elements node) in
      record { returns = λ hs h. r.returns [] h; fails = λ hs h. r.fails [] h }
