-- ===== src/Reactor/Setup.antt =====
-- The constructor of `DataFlowReactor` with `setup_io_uring`, and the destructor: which calls of
-- Zenoh, io_uring and eventfd succeed is given from outside, what is acquired and released is kept.
use flowkernel.Base.{
  ◌≡◌, refl, List, [], ◌∷◌, ◌++◌, Option, none, some, Bool, true, false, if◌then◌else◌,
}
use flowkernel.Platform.{Platform}
use flowkernel.Reactor.{Reactor, stop}

-- Which of the calls succeed.
pub record Answers : Type 0 where
  pub config_default : Bool
  pub open_session : Bool
  pub keyexpr_from_str : Bool
  pub declare_publisher : Bool
  pub queue_init : Bool
  pub eventfd : Bool

-- What the constructor throws.
pub data SetupError : Type 0 where
  config_failed session_failed invalid_keyexpr publisher_failed io_uring_failed eventfd_failed :
      SetupError

pub data Resource : Type 0 where
  session keyexpr publisher ring event_counter : Resource

pub data Step : Type 0 where
  acquires : Resource → Step
  releases : Resource → Step

-- One call: what follows it, if it succeeded, or the exception.
abbrev pub then_or :
    Bool → SetupError → Option SetupError × List Step → Option SetupError × List Step
then_or true error rest = rest
then_or false error rest = (some error, [])

abbrev pub after : Step → Option SetupError × List Step → Option SetupError × List Step
after s (error, steps) = (error, s ∷ steps)

unfoldable pub open_eventfd : Answers → Option SetupError × List Step
open_eventfd a = then_or a.eventfd eventfd_failed (none, acquires event_counter ∷ [])

unfoldable pub setup_io_uring : Answers → Option SetupError × List Step
setup_io_uring a = then_or a.queue_init io_uring_failed (after (acquires ring) (open_eventfd a))

-- A key expression is dropped on both paths.
unfoldable pub declare_estop_publisher : Answers → Option SetupError × List Step
declare_estop_publisher a = then_or a.keyexpr_from_str invalid_keyexpr (
    after (acquires keyexpr) (
      if a.declare_publisher
      then after (acquires publisher) (after (releases keyexpr) (setup_io_uring a))
      else (some publisher_failed, releases keyexpr ∷ [])))

unfoldable pub construct : Answers → Option SetupError × List Step
construct a =
    then_or a.config_default config_failed
      (then_or a.open_session session_failed (after (acquires session) (declare_estop_publisher a)))

-- The destructor of a reactor that was constructed.
unfoldable pub destruct : {p : Platform} → Reactor p → Reactor p × List Step
destruct r =
    (stop r, releases event_counter ∷ releases ring ∷ releases publisher ∷ releases session ∷ [])

abbrev same : Resource → Resource → Bool
same session session = true
same keyexpr keyexpr = true
same publisher publisher = true
same ring ring = true
same event_counter event_counter = true
same _ _ = false

abbrev pub without : Resource → List Resource → List Resource
without x [] = []
without x (y ∷ ys) = if same x y then ys else y ∷ without x ys

-- What is held after these steps, the latest first.
abbrev pub held_after : List Resource → List Step → List Resource
held_after held [] = held
held_after held (acquires x ∷ steps) = held_after (x ∷ held) steps
held_after held (releases x ∷ steps) = held_after (without x held) steps

-- What the constructor leaves behind, by how it ends.
abbrev pub left_by : Option SetupError → List Resource
left_by none = event_counter ∷ ring ∷ publisher ∷ session ∷ []
left_by (some config_failed) = []
left_by (some session_failed) = []
left_by (some invalid_keyexpr) = session ∷ []
left_by (some publisher_failed) = session ∷ []
left_by (some io_uring_failed) = publisher ∷ session ∷ []
left_by (some eventfd_failed) = ring ∷ publisher ∷ session ∷ []

-- C++ runs the destructor only for a constructor that has returned.
abbrev pub if_constructed : Option SetupError → List Step → List Step
if_constructed none steps = steps
if_constructed (some error) steps = []

abbrev pub leaked : Option SetupError → List Resource
leaked none = []
leaked error = left_by error

-- However the calls answer: a constructor that returns holds the session, the publisher, the ring
-- and the eventfd, and the destructor releases all of them. One that throws has released the key
-- expression and nothing else: the session, the publisher and the ring, as far as they were made,
-- are never released.
pub construct_leaves :
    (a : Answers) {p : Platform} (r : Reactor p)
    → let (error, steps) = construct a in
      (held_after [] steps ≡ left_by error)
      × (held_after [] (steps ++ if_constructed error (destruct r).1) ≡ leaked error)
unfolding construct declare_estop_publisher setup_io_uring open_eventfd destruct
construct_leaves a r =
    by_cases a.config_default a.open_session a.keyexpr_from_str a.declare_publisher a.queue_init
      a.eventfd
  where
    by_cases :
        (c o k d q e : Bool)
        → let (error, steps) = construct (record {
          config_default = c;
          open_session = o;
          keyexpr_from_str = k;
          declare_publisher = d;
          queue_init = q;
          eventfd = e;
        }) in
          (held_after [] steps ≡ left_by error)
          × (held_after [] (steps ++ if_constructed error (destruct r).1) ≡ leaked error)
    by_cases false o k d q e = (refl, refl)
    by_cases true false k d q e = (refl, refl)
    by_cases true true false d q e = (refl, refl)
    by_cases true true true false q e = (refl, refl)
    by_cases true true true true false e = (refl, refl)
    by_cases true true true true true false = (refl, refl)
    by_cases true true true true true true = (refl, refl)
