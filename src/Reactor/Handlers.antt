-- ===== src/Reactor/Handlers.antt =====
-- The table of handlers: `handler_index_` leads from a hash to the first handler registered with
-- it.
use flowkernel.Base.{
  ℕ, zero, suc, ◌+◌, ◌≡◌, ◌≢◌, refl, sym, ap, ◌∙◌, List, [], ◌∷◌, ◌++◌, Option, none, some, arith,
  ◌==◌, if◌then◌else◌, length, get_elem?, Bool-cases, inl, inr,
}
use flowkernel.Base.Assoc.{lookup, lookup-emplace, or_else}
use flowkernel.Hash.{Bytes, fnv1a_hash}
use flowkernel.Platform.{Platform}
use flowkernel.Reactor.{TopicPriority, Handler, Reactor, new_reactor, register_handler}

-- The first handler with this hash, and its place.
unfoldable pub first_with : ℕ → ℕ → List Handler → Option ℕ
first_with hash i [] = none
first_with hash i (h ∷ hs) = if h.path_hash == hash then some i else first_with hash (suc i) hs

-- The index is what a search through the handlers would find.
abbrev pub IsIndexed : List Handler → List (ℕ × ℕ) → Type 0
IsIndexed handlers index = (hash : ℕ) → lookup hash index ≡ first_with hash 0 handlers

first_with-append :
    (hash i : ℕ) (hs : List Handler) (h : Handler)
    → first_with hash i (hs ++ h ∷ []) ≡ (
        if h.path_hash == hash
        then or_else (first_with hash i hs) (i + length hs)
        else first_with hash i hs)
unfolding first_with
first_with-append hash i [] h = ground arith
first_with-append hash i (x ∷ hs) h = ground (arith, first_with-append hash (suc i) hs h)

-- What a place in the index stands for.
first_with-found :
    (hs : List Handler) (hash i : ℕ) {idx : ℕ}
    → first_with hash i hs ≡ some idx
    → (k : ℕ) × (h : Handler) × (idx ≡ i + k) × (get_elem? hs k ≡ some h) × (h.path_hash ≡ hash)
unfolding first_with
first_with-found [] hash i e = cc
first_with-found (x ∷ hs) hash i {idx} e = elim (Bool-cases (x.path_hash == hash)) [
  | inl hit ↦ (0, x, ground arith, refl, ground arith)
  | inr miss ↦
      let (k, h, at, got, eq) = first_with-found hs hash (suc i) (rw miss at e) in
      (suc k, h, omega arith, got, eq)
]

pub first_with-present :
    (hs : List Handler) (i k : ℕ) (h : Handler)
    → get_elem? hs k ≡ some h
    → first_with h.path_hash i hs ≢ none
unfolding first_with
first_with-present [] i k h e = absurd (cc)
first_with-present (x ∷ hs) i zero h e = ground arith
first_with-present (x ∷ hs) i (suc k) h e = ground (arith, first_with-present hs (suc i) k h e)

-- A place in the index is the place of a handler with that hash.
pub indexed_handler :
    (handlers : List Handler) (index : List (ℕ × ℕ)) {hash idx : ℕ}
    → IsIndexed handlers index
    → lookup hash index ≡ some idx
    → (h : Handler) × (get_elem? handlers idx ≡ some h) × (h.path_hash ≡ hash)
indexed_handler handlers index {hash} {idx} ok e =
    let (k, h, at, got, eq) = first_with-found handlers hash 0 (sym (ok hash) ∙ e) in
    (h, ap (get_elem? handlers) (at ∙ omega arith) ∙ got, eq)

module _ {p : Platform} where
  pub register_handler-IsIndexed :
      (r : Reactor p) (path : Bytes) (priority : TopicPriority)
      → IsIndexed r.handlers r.handler_index
      → let r' = register_handler r path priority in IsIndexed r'.handlers r'.handler_index
  unfolding register_handler
  register_handler-IsIndexed r path priority ok hash =
      let h : Handler = record { path = path; path_hash = fnv1a_hash path; priority = priority } in
      ground (
        arith,
        lookup-emplace (fnv1a_hash path) hash (length r.handlers) r.handler_index,
        first_with-append hash 0 r.handlers h,
        ok hash,
      )

  abbrev pub register_all : List (Bytes × TopicPriority) → Reactor p → Reactor p
  register_all [] r = r
  register_all ((path, priority) ∷ rest) r = register_all rest (register_handler r path priority)

  pub register_all_from :
      (cfg : List (Bytes × TopicPriority)) (r : Reactor p)
      → IsIndexed r.handlers r.handler_index
      → let r' = register_all cfg r in IsIndexed r'.handlers r'.handler_index
  register_all_from [] r ok = ok
  register_all_from ((path, priority) ∷ rest) r ok =
      register_all_from rest (register_handler r path priority)
        (register_handler-IsIndexed r path priority ok)

module _ (p : Platform) where
  pub new_reactor-IsIndexed : IsIndexed (new_reactor p).handlers (new_reactor p).handler_index
  unfolding new_reactor lookup first_with
  new_reactor-IsIndexed hash = refl

  -- After any registrations on a new reactor a look-up in `handler_index_` finds exactly what a
  -- search through `handlers_` in the order of registration finds: the first handler with that
  -- hash, or nothing where no handler has it.
  pub register_all-IsIndexed :
      (cfg : List (Bytes × TopicPriority)) (hash : ℕ)
      → let r = register_all cfg (new_reactor p) in
        lookup hash r.handler_index ≡ first_with hash 0 r.handlers
  register_all-IsIndexed cfg hash = register_all_from cfg (new_reactor p) new_reactor-IsIndexed hash
