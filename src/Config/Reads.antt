-- ===== src/Config/Reads.antt =====
-- Statements of the parsers of src/config.cpp: whether one returns does not depend on the
-- configuration, and one that returns makes a known change to it.
use Prim.Native.String.{String}
use Prim.Native.String.{String}
use Prim.Native.String.{String}
use Prim.Native.String.{String}
use flowkernel.Base.{◌≡◌, refl, ◌∙◌, [], Option, none, some, Bool, true, false, ◌&&◌, ap}
use flowkernel.Config.{ℤ, Looked, throws, missing, found, Yaml, Config}
use flowkernel.Config.Parse.{part, next, steps, store, read, within, text, number, flag}

pub record Reads {S : Type 0} (ok : Bool) (f : S → S) (p : S → Bool × S) : Type 0 where
  pub returns : (s : S) → ok ≡ true → p s ≡ (true, f s)
  pub fails : (s : S) → ok ≡ false → (p s).0 ≡ false

module _ {S : Type 0} where
  pub Reads-same :
      {ok : Bool} {f g : S → S} {p : S → Bool × S}
      → ((s : S) → f s ≡ g s)
      → Reads ok f p
      → Reads ok g p
  Reads-same same r = record {
    returns = λ s h. r.returns s h ∙ ap (λ t. (true, t)) (same s);
    fails = r.fails;
  }

  next-returned : (q : S → Bool × S) {x : Bool × S} {s : S} → x ≡ (true, s) → next q x ≡ q s
  next-returned q e = ap (next q) e

  next-threw : (q : S → Bool × S) (x : Bool × S) → x.0 ≡ false → (next q x).0 ≡ false
  next-threw q (true, s) h = cc
  next-threw q (false, s) h = refl

  pub end-Reads : Reads true (λ (s : S). s) (steps [])
  end-Reads = record { returns = λ s h. refl; fails = λ s h. cc }

  -- One statement after another: both return, or one throws.
  pub then-Reads :
      (a b : Bool) {f g : S → S} {p q : S → Bool × S}
      → Reads a f p
      → Reads b g q
      → Reads (a && b) (λ s. g (f s)) (λ s. next q (p s))
  then-Reads true b {f} {q = q} first rest = record {
    returns = λ s h. next-returned q (first.returns s refl) ∙ rest.returns (f s) h;
    fails = λ s h.
        ap (λ (x : Bool × S). x.0) (next-returned q (first.returns s refl)) ∙ rest.fails (f s) h;
  }
  then-Reads false b {p = p} {q = q} first rest = record {
    returns = λ s h. cc;
    fails = λ s h. next-threw q (p s) (first.fails s refl);
  }

module _ (y : Yaml) where
  -- A key is in order if it is missing, or its value has the type that the code asks for.
  abbrev pub is_some : {V : Type 0} → Option V → Bool
  is_some none = false
  is_some (some v) = true

  abbrev pub value_ok : {V : Type 0} → (y.Node → Option V) → Looked y.Node → Bool
  value_ok as_value throws = false
  value_ok as_value missing = true
  value_ok as_value (found node) = is_some (as_value node)

  -- The value of a key, or the one of before for a key that is missing.
  abbrev pub or_old : {V : Type 0} → Option V → V → V
  or_old none old = old
  or_old (some v) old = v

  abbrev pub value_or : {V : Type 0} → (y.Node → Option V) → Looked y.Node → V → V
  value_or as_value (found node) old = or_old (as_value node) old
  value_or as_value _ old = old

  abbrev pub section_ok : (y.Node → Bool) → Looked y.Node → Bool
  section_ok ok throws = false
  section_ok ok missing = true
  section_ok ok (found node) = ok node

  abbrev pub section_or : {S : Type 0} → (y.Node → S → S) → Looked y.Node → S → S
  section_or f (found node) s = f node s
  section_or f _ s = s

  store-Reads :
      {S V : Type 0} (put : V → S → S) (get : S → V) (o : Option V)
      → Reads (is_some o) (λ s. put (or_old o (get s)) s) (store y put o)
  store-Reads put get none = record { returns = λ s h. cc; fails = λ s h. refl }
  store-Reads put get (some v) = record { returns = λ s h. refl; fails = λ s h. cc }

  -- `if (node[key]) x = node[key].as<V>();`
  pub read-Reads :
      {S V : Type 0} (as_value : y.Node → Option V) (put : V → S → S) (get : S → V)
      → ((s : S) → s ≡ put (get s) s)
      → (l : Looked y.Node)
      → Reads
          (value_ok as_value l)
          (λ s. put (value_or as_value l (get s)) s)
          (read y as_value put l)
  read-Reads as_value put get same throws = record { returns = λ s h. cc; fails = λ s h. refl }
  read-Reads as_value put get same missing = record {
    returns = λ s h. ap (λ t. (true, t)) (same s);
    fails = λ s h. cc;
  }
  read-Reads as_value put get same (found node) = store-Reads put get (as_value node)

  -- `if (node[key]) { ... }`, with a block that changes one part of the state.
  pub section-Reads :
      {C S : Type 0} (ok : y.Node → Bool) (f : y.Node → S → S) (put : S → C → C) (get : C → S)
      → ((c : C) → c ≡ put (get c) c)
      → (p : y.Node → C → Bool × C)
      → ((node : y.Node) → Reads (ok node) (λ c. put (f node (get c)) c) (p node))
      → (l : Looked y.Node)
      → Reads (section_ok ok l) (λ c. put (section_or f l (get c)) c) (within y p l)
  section-Reads ok f put get same p each throws = record {
    returns = λ c h. cc;
    fails = λ c h. refl;
  }
  section-Reads ok f put get same p each missing = record {
    returns = λ c h. ap (λ t. (true, t)) (same c);
    fails = λ c h. cc;
  }
  section-Reads ok f put get same p each (found node) = each node

  -- A section that its parser reads by itself and that is put back.
  part-Reads :
      {S : Type 0} (put : S → Config → Config) (get : Config → S) {ok : Bool} {f : S → S}
      {p : S → Bool × S}
      → Reads ok f p
      → Reads ok (λ c. put (f (get c)) c) (λ c. part y put (p (get c)) c)
  part-Reads put get r = record {
    returns = λ c h. ap (λ x. part y put x c) (r.returns (get c) h);
    fails = λ c h. r.fails (get c) h;
  }

  -- Such a section of the file.
  pub in_root-Reads :
      {S : Type 0} (put : S → Config → Config) (get : Config → S)
      → ((c : Config) → c ≡ put (get c) c)
      → {ok : y.Node → Bool} {f : y.Node → S → S} {p : y.Node → S → Bool × S}
      → ((node : y.Node) → Reads (ok node) (f node) (p node))
      → (l : Looked y.Node)
      → Reads
          (section_ok ok l)
          (λ c. put (section_or f l (get c)) c)
          (within y (λ node c. part y put (p node (get c)) c) l)
  in_root-Reads put get same {ok} {f} each l =
      section-Reads ok f put get same _ (λ node. part-Reads put get (each node)) l

  abbrev pub text_ok : y.Node → String → Bool
  text_ok node name = value_ok y.as_text (y.look node name)

  abbrev pub text_or : y.Node → String → String → String
  text_or node name old = value_or y.as_text (y.look node name) old

  pub text-Reads :
      {S : Type 0} (put : String → S → S) (get : S → String)
      → ((s : S) → s ≡ put (get s) s)
      → (name : String) (node : y.Node)
      → Reads (text_ok node name) (λ s. put (text_or node name (get s)) s) (text y put name node)
  text-Reads put get same name node = read-Reads y.as_text put get same (y.look node name)

  abbrev pub number_ok : y.Node → String → Bool
  number_ok node name = value_ok y.as_int (y.look node name)

  abbrev pub number_or : y.Node → String → ℤ → ℤ
  number_or node name old = value_or y.as_int (y.look node name) old

  pub number-Reads :
      {S : Type 0} (put : ℤ → S → S) (get : S → ℤ)
      → ((s : S) → s ≡ put (get s) s)
      → (name : String) (node : y.Node)
      → Reads
          (number_ok node name)
          (λ s. put (number_or node name (get s)) s)
          (number y put name node)
  number-Reads put get same name node = read-Reads y.as_int put get same (y.look node name)

  abbrev pub flag_ok : y.Node → String → Bool
  flag_ok node name = value_ok y.as_bool (y.look node name)

  abbrev pub flag_or : y.Node → String → Bool → Bool
  flag_or node name old = value_or y.as_bool (y.look node name) old

  pub flag-Reads :
      {S : Type 0} (put : Bool → S → S) (get : S → Bool)
      → ((s : S) → s ≡ put (get s) s)
      → (name : String) (node : y.Node)
      → Reads (flag_ok node name) (λ s. put (flag_or node name (get s)) s) (flag y put name node)
  flag-Reads put get same name node = read-Reads y.as_bool put get same (y.look node name)
