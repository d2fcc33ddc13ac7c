-- ===== src/Main/Handlers.antt =====
-- The reactor's table of handlers after `main` has gone through the configuration.
use flowkernel.Base.{
  ℕ, ◌≡◌, refl, sym, ap, ◌∙◌, List, [], ◌∷◌, ◌++◌, map, append-nil, append_assoc, utf8,
}
use flowkernel.Base.Assoc.{lookup}
use flowkernel.Hash.{Bytes, fnv1a_hash}
use flowkernel.Platform.{Platform}
use flowkernel.Config.{HandlerConfig}
use flowkernel.Reactor.{TopicPriority, Handler, Reactor, new_reactor, register_handler}
use flowkernel.Reactor.Handlers.{first_with, register_all, register_all-IsIndexed}
use flowkernel.Main.{parse_priority, register_configured}

-- What an entry of the configuration stands for.
abbrev pub configured : HandlerConfig → Handler
configured hc = record {
  path = utf8 hc.path;
  path_hash = fnv1a_hash (utf8 hc.path);
  priority = parse_priority hc.priority;
}

abbrev pub topic_of : HandlerConfig → Bytes × TopicPriority
topic_of hc = (utf8 hc.path, parse_priority hc.priority)

module _ {p : Platform} where
  pub register_configured-register_all :
      (hcs : List HandlerConfig) (r : Reactor p)
      → register_configured hcs r ≡ register_all (map topic_of hcs) r
  unfolding register_configured
  register_configured-register_all [] r = refl
  register_configured-register_all (hc ∷ hcs) r = register_configured-register_all hcs _

  handlers-register_configured :
      (hcs : List HandlerConfig) (r : Reactor p)
      → (register_configured hcs r).handlers ≡ r.handlers ++ map configured hcs
  unfolding register_configured register_handler
  handlers-register_configured [] r = sym (append-nil r.handlers)
  handlers-register_configured (hc ∷ hcs) r =
      handlers-register_configured hcs
        (register_handler r (utf8 hc.path) (parse_priority hc.priority))
      ∙ append_assoc r.handlers (configured hc ∷ []) (map configured hcs)

module _ (p : Platform) where
  -- A new reactor that `main` has given the handlers of a configuration has exactly these, in their
  -- order, each with the hash of its path and the priority that its text names, and a look-up of a
  -- hash in `handler_index_` finds the first of them with that hash, or nothing.
  pub configured_handlers :
      (hcs : List HandlerConfig) (hash : ℕ)
      → let r = register_configured hcs (new_reactor p) in
        (r.handlers ≡ map configured hcs)
        × (lookup hash r.handler_index ≡ first_with hash 0 (map configured hcs))
  unfolding new_reactor
  configured_handlers hcs hash =
      let same = register_configured-register_all hcs (new_reactor p) in
      let all = handlers-register_configured hcs (new_reactor p) in
      (
        all,
        ap (λ (r : Reactor p). lookup hash r.handler_index) same
            ∙ register_all-IsIndexed p (map topic_of hcs) hash
            ∙ ap (λ (r : Reactor p). first_with hash 0 r.handlers) (sym same)
            ∙ ap (first_with hash 0) all,
      )
