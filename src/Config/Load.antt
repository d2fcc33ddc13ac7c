-- ===== src/Config/Load.antt =====
-- What `Config::load` leaves behind.
use Prim.Native.String.{String}
use flowkernel.Base.{
  ◌≡◌, refl, sym, ap, subst, ◌∙◌, List, [], ◌∷◌, ◌++◌, map, append-nil, append_assoc, Option, none,
  some, Bool, true, false, ◌&&◌, if◌then◌else◌, Bool-cases, inl, inr,
}
use flowkernel.Config.{
  Yaml, Looked, throws, missing, found, Config, HandlerConfig, new_handler, use_defaults,
}
use flowkernel.Config.Parse.{
  store, read, within, text, next, steps, caught, push_back, parse_handler, parse_each,
  parse_handlers, root_parts, parse_root, load_root, load,
}

abbrev pub or_empty : Option String → String
or_empty none = ""
or_empty (some v) = v

next-true :
    {S : Type 0} (q : S → Bool × S) (x : Bool × S)
    → (next q x).0 ≡ true
    → (x.0 ≡ true) × ((q x.1).0 ≡ true) × ((next q x).1 ≡ (q x.1).1)
next-true q (true, s) h = (refl, h, refl)
next-true q (false, s) h = cc

module _ (y : Yaml) where
  -- The text that an entry gives for a key; a key that is missing gives none.
  abbrev pub text_or_empty : Looked y.Node → String
  text_or_empty (found node) = or_empty (y.as_text node)
  text_or_empty _ = ""

  -- The handler that an entry of the list describes.
  abbrev pub handler_of : y.Node → HandlerConfig
  handler_of node = record {
    path = text_or_empty (y.look node "path");
    priority = text_or_empty (y.look node "priority");
    description = text_or_empty (y.look node "description");
  }

  store_text :
      {S : Type 0} (put : String → S → S) (o : Option String) (s : S)
      → (store y put o s).0 ≡ true
      → (store y put o s).1 ≡ put (or_empty o) s
  store_text put none s h = cc
  store_text put (some v) s h = refl

  -- A statement that returned has stored the text, or left the empty one.
  read_text :
      {S : Type 0} (put : String → S → S) (l : Looked y.Node) (s : S)
      → put "" s ≡ s
      → (read y y.as_text put l s).0 ≡ true
      → (read y y.as_text put l s).1 ≡ put (text_or_empty l) s
  read_text put throws s e h = cc
  read_text put missing s e h = sym e
  read_text put (found node) s e h = store_text put (y.as_text node) s h

  -- An entry that was read to its end is `handler_of` it.
  parse_handler-handler_of :
      (node : y.Node)
      → (parse_handler y node new_handler).0 ≡ true
      → (parse_handler y node new_handler).1 ≡ handler_of node
  unfolding parse_handler
  parse_handler-handler_of node h =
      let put_path : String → HandlerConfig → HandlerConfig = λ v s. record s { path = v } in
      let put_priority : String → HandlerConfig → HandlerConfig =
        λ v s. record s { priority = v } in
      let put_description : String → HandlerConfig → HandlerConfig =
        λ v s. record s { description = v } in
      let s1 = put_path (text_or_empty (y.look node "path")) new_handler in
      let s2 = put_priority (text_or_empty (y.look node "priority")) s1 in
      let last : HandlerConfig → Bool × HandlerConfig =
        steps (text y put_description "description" node ∷ []) in
      let middle : HandlerConfig → Bool × HandlerConfig =
        λ s. next last (text y put_priority "priority" node s) in
      let (ok, more, e) = next-true middle (text y put_path "path" node new_handler) h in
      let r1 = read_text put_path (y.look node "path") new_handler refl ok in
      let more1 : (middle s1).0 ≡ true = subst (λ s. (middle s).0 ≡ true) r1 more in
      let (ok', more', e') = next-true last (text y put_priority "priority" node s1) more1 in
      let r2 = read_text put_priority (y.look node "priority") s1 refl ok' in
      let more2 : (last s2).0 ≡ true = subst (λ s. (last s).0 ≡ true) r2 more' in
      let (ok'', _, e'') =
        next-true (steps []) (text y put_description "description" node s2) more2 in
      let r3 = read_text put_description (y.look node "description") s2 refl ok'' in
      e ∙ ap (λ s. (middle s).1) r1 ∙ e' ∙ ap (λ s. (last s).1) r2 ∙ e'' ∙ r3

  push_back-true :
      (x : Bool × HandlerConfig) (hs : List HandlerConfig)
      → (push_back y x hs).0 ≡ true
      → (x.0 ≡ true) × ((push_back y x hs).1 ≡ hs ++ x.1 ∷ [])
  push_back-true (true, hc) hs h = (refl, refl)
  push_back-true (false, hc) hs h = cc

  parse_each-map :
      (nodes : List y.Node) (hs : List HandlerConfig)
      → (parse_each y nodes hs).0 ≡ true
      → (parse_each y nodes hs).1 ≡ hs ++ map handler_of nodes
  unfolding parse_each
  parse_each-map [] hs h = sym (append-nil hs)
  parse_each-map (node ∷ nodes) hs h =
      let (ok, more, e) =
        next-true (parse_each y nodes) (push_back y (parse_handler y node new_handler) hs) h in
      let (read, pushed) = push_back-true (parse_handler y node new_handler) hs ok in
      let all = pushed ∙ ap (λ hc. hs ++ hc ∷ []) (parse_handler-handler_of node read) in
      let more' = subst (λ xs. (parse_each y nodes xs).0 ≡ true) all more in
      e
      ∙ ap (λ xs. (parse_each y nodes xs).1) all
      ∙ parse_each-map nodes (hs ++ handler_of node ∷ []) more'
      ∙ append_assoc hs (handler_of node ∷ []) (map handler_of nodes)

  -- When `parse_handlers` returns, the handlers are those that the node lists, in its order, each
  -- with the texts of its keys and the empty text for a key that is missing; none of before is
  -- left.
  pub parse_handlers_lem :
      (node : y.Node) (hs : List HandlerConfig)
      → (parse_handlers y node hs).0 ≡ true
      → (parse_handlers y node hs).1 ≡ map handler_of (y.elements node)
  unfolding parse_handlers
  parse_handlers_lem node hs h = parse_each-map (y.elements node) [] h

abbrev Keeps : (Config → Bool × Config) → Type 0
Keeps p = (c : Config) → (p c).1.loaded_path ≡ c.loaded_path

abbrev AllKeep : List (Config → Bool × Config) → Type 0
AllKeep [] = Unit {0}
AllKeep (p ∷ ps) = Keeps p × AllKeep ps

next-Keeps :
    (q : Config → Bool × Config) (x : Bool × Config)
    → Keeps q
    → (next q x).1.loaded_path ≡ x.1.loaded_path
next-Keeps q (true, c) h = h c
next-Keeps q (false, c) h = refl

steps-Keeps : (ps : List (Config → Bool × Config)) → AllKeep ps → Keeps (steps ps)
steps-Keeps [] h c = refl
steps-Keeps (p ∷ ps) (first, rest) c = next-Keeps (steps ps) (p c) (steps-Keeps ps rest) ∙ first c

module _ (y : Yaml) where
  within-Keeps :
      (f : y.Node → Config → Bool × Config) (l : Looked y.Node)
      → ((node : y.Node) → Keeps (f node))
      → Keeps (within y f l)
  within-Keeps f throws h c = refl
  within-Keeps f missing h c = refl
  within-Keeps f (found node) h c = h node c

  parse_root-Keeps : (root : y.Node) → Keeps (parse_root y root)
  unfolding parse_root
  parse_root-Keeps root = steps-Keeps (root_parts y root) (
    within-Keeps _ _ (λ node c. refl),
    (
      within-Keeps _ _ (λ node c. refl),
      (
        within-Keeps _ _ (λ node c. refl),
        (
          within-Keeps _ _ (λ node c. refl),
          (within-Keeps _ _ (λ node c. refl), (within-Keeps _ _ (λ node c. refl), tt)),
        ),
      ),
    ),
  )

  caught_path :
      (x : Bool × Config) (path : String)
      → x.1.loaded_path ≡ path
      → (caught y x).1.loaded_path ≡ (if (caught y x).0 then path else "")
  unfolding use_defaults
  caught_path (true, c) path e = e
  caught_path (false, c) path e = refl

  -- After `load` the configuration names the file it was given exactly if that file exists and
  -- `load` succeeded; after a failure, and without a file, which counts as a success, it names
  -- none.
  pub load_path :
      (config_path : String) (c : Config)
      → let (ok, c') = load y config_path c in
        c'.loaded_path ≡ (if y.exists config_path && ok then config_path else "")
  unfolding load use_defaults
  load_path config_path c = elim (Bool-cases (y.exists config_path)) [
    | inl there ↦ rw there (opened (y.load_file config_path))
    | inr absent ↦ rw absent
  ]
    where
      opened :
          (o : Option y.Node)
          → (load_root y config_path o c).1.loaded_path
            ≡ (if (load_root y config_path o c).0 then config_path else "")
      opened none = refl
      opened (some root) =
          caught_path (parse_root y root (record c { loaded_path = config_path })) config_path
            (parse_root-Keeps root (record c { loaded_path = config_path }))
