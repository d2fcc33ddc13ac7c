-- ===== src/Reactor/Sessions.antt =====
-- Sessions: which part of a key names the robot, and what `get_sessions` then says of it.
use mathlib.Core.Option
use flowkernel.Base.{
  ℕ, ◌-◌, ◌^◌, ◌≤◌, ◌<◌, ◌≡◌, ◌≢◌, ◌↔◌, refl, sym, ap, ◌∙◌, List, [], ◌∷◌, ◌++◌, Option, none, some,
  Bool, true, false, arith, ◌==◌, if◌then◌else◌, length, take, ltb, map, Bool-cases, inl, inr,
  sub64,
}
use flowkernel.Hash.{Bytes}
use flowkernel.Platform.{Platform}
use flowkernel.Reactor.{TopicPriority, critical, normal, background, CallbackContext, Reactor}
use flowkernel.Cache.{put_latest}
use flowkernel.Reactor.Callback.{
  find, robot_id, bytes_eq, see, track_session, wake, enqueue, route, data_callback,
}
use flowkernel.Reactor.Stats.{SessionInfo, session_info, get_sessions}

abbrev pub robot_prefix : Bytes
robot_prefix = b'r' ∷ b'o' ∷ b'b' ∷ b'o' ∷ b't' ∷ b'/' ∷ []

-- No slash among these bytes.
abbrev pub NoSlash : Bytes → Type 0
NoSlash [] = Unit {0}
NoSlash (c ∷ str) = (c ≢ b'/') × NoSlash str

find_slash : (id rest : Bytes) → NoSlash id → find b'/' 0 (id ++ b'/' ∷ rest) ≡ some (length id)
unfolding find
find_slash [] rest h = refl
find_slash (c ∷ id) rest h = ground (arith, find_slash id rest h.1)

find-NoSlash : (id : Bytes) → NoSlash id → find b'/' 0 id ≡ none
unfolding find
find-NoSlash [] h = refl
find-NoSlash (c ∷ id) h = ground (arith, find-NoSlash id h.1)

take-length : (xs ys : Bytes) → take (length xs) (xs ++ ys) ≡ xs
take-length [] ys = refl
take-length (x ∷ xs) ys = ap (◌∷◌ x) (take-length xs ys)

-- With no slash in `<id>`, a key `robot/<id>/...` names the robot `robot/<id>`, whatever follows,
-- and a key `robot/<id>` names none.
pub robot_id_lem :
    (id rest : Bytes)
    → NoSlash id
    → (robot_id (robot_prefix ++ id ++ b'/' ∷ rest) ≡ some (robot_prefix ++ id))
      × (robot_id (robot_prefix ++ id) ≡ none)
unfolding robot_id find
robot_id_lem id rest h = (
  ground (arith, find_slash id rest h, take-length id (b'/' ∷ rest)),
  ground (arith, find-NoSlash id h),
)

bytes_eq_iff : (xs ys : Bytes) → (bytes_eq xs ys ≡ true) ↔ (xs ≡ ys)
unfolding bytes_eq
bytes_eq_iff [] [] = (λ _. refl, λ _. refl)
bytes_eq_iff [] (y ∷ ys) = (λ e. cc, λ e. cc)
bytes_eq_iff (x ∷ xs) [] = (λ e. cc, λ e. cc)
bytes_eq_iff (x ∷ xs) (y ∷ ys) = ground (arith, bytes_eq_iff xs ys)

-- The time kept for a robot.
unfoldable pub last_seen : Bytes → List (Bytes × ℕ) → Option ℕ
last_seen id [] = none
last_seen id ((j, t) ∷ m) = if bytes_eq j id then some t else last_seen id m

last_seen-see :
    (id j : Bytes) (now_ms : ℕ) (m : List (Bytes × ℕ))
    → last_seen j (see id now_ms m) ≡ (if bytes_eq id j then some now_ms else last_seen j m)
unfolding last_seen see
last_seen-see id j now_ms [] = refl
last_seen-see id j now_ms ((i, t) ∷ m) =
    ground
      (arith, last_seen-see id j now_ms m, bytes_eq_iff i id, bytes_eq_iff i j, bytes_eq_iff id j)

-- The entry of a robot in what `get_sessions` returns.
unfoldable pub session_of : Bytes → List SessionInfo → Option SessionInfo
session_of id [] = none
session_of id (s ∷ ss) = if bytes_eq s.robot_id id then some s else session_of id ss

session_of-map :
    (id : Bytes) (now : ℕ) (m : List (Bytes × ℕ))
    → session_of id (map (session_info now) m)
      ≡ Option.map (λ t. session_info now (id, t)) (last_seen id m)
unfolding session_of last_seen session_info
session_of-map id now [] = refl
session_of-map id now ((j, t) ∷ m) = elim (Bool-cases (bytes_eq j id)) [
  | inl hit ↦
      rw hit (ap (λ (i : Bytes). some (session_info now (i, t))) ((bytes_eq_iff j id).0 hit))
  | inr miss ↦ rw miss (session_of-map id now m)
]

module _ {p : Platform} where
  session_of-see :
      (key other : Bytes) (t now : ℕ) (r : Reactor p)
      → t ≤ now
      → now < 2 ^ 64
      → session_of other (map (session_info now) (see key t r.session_last_seen)) ≡ (
          if bytes_eq key other
          then some
              (record { robot_id = other; online = ltb (now - t) 5000; last_seen_ms = now - t })
          else session_of other (get_sessions now r))
  unfolding get_sessions session_info
  session_of-see key other t now r before fits =
      let ago : sub64 now t ≡ now - t = omega arith in
      let info : ℕ → SessionInfo =
        λ n. record { robot_id = other; online = ltb n 5000; last_seen_ms = n } in
      session_of-map other now (see key t r.session_last_seen)
      ∙ ap (Option.map (λ u. session_info now (other, u)))
          (last_seen-see key other t r.session_last_seen)
      ∙ elim (Bool-cases (bytes_eq key other)) [
        | inl hit ↦ rw hit (ap (λ n. some (info n)) ago)
        | inr miss ↦ rw miss (sym (session_of-map other now r.session_last_seen))
      ]

  sessions-wake :
      (q : TopicPriority) (pushed : Bool) (r : Reactor p)
      → (wake q pushed r).session_last_seen ≡ r.session_last_seen
  unfolding wake
  sessions-wake critical true r = refl
  sessions-wake critical false r = refl
  sessions-wake normal pushed r = refl
  sessions-wake background pushed r = refl

  track_session-some :
      (key : Bytes) (t : ℕ) (r : Reactor p) {id : Bytes}
      → robot_id key ≡ some id
      → (track_session key t r).session_last_seen ≡ see id t r.session_last_seen
  unfolding track_session
  track_session-some key t r e = rw (e, track_session)

  sessions-route :
      (ctx : CallbackContext) (buf : Bytes) (now : ℕ) (r : Reactor p)
      → (route ctx buf now r).session_last_seen ≡ r.session_last_seen
  unfolding route enqueue
  sessions-route ctx buf now r =
      elim ctx.priority
        as (λ q.
          (elim q as (λ _. Reactor p) [
            | background ↦ record r {
              background_cache = put_latest r.background_cache ctx.handler_hash buf now;
            }
            | _ ↦ enqueue ctx buf now r
          ]).session_last_seen
          ≡ r.session_last_seen) [
            | critical ↦ sessions-wake ctx.priority _ _
            | normal ↦ sessions-wake ctx.priority _ _
            | background ↦ refl
          ]

  -- A valid sample that is not empty, with the key `robot/<id>/...`, no slash in `<id>`, at time
  -- `t` makes its robot, and no other, seen at `t`: from then on `get_sessions` at a time `now`,
  -- not before `t`, says that it was last seen `now - t` ago and is online exactly if that is less
  -- than 5000, and says of any other robot what it said before.
  pub session_of-data_callback :
      (ctx : CallbackContext) (id rest raw other : Bytes) (t frame_time now : ℕ) (r : Reactor p)
      → NoSlash id
      → length raw ≢ 0
      → p.verify raw ≡ true
      → t ≤ now
      → now < 2 ^ 64
      → let r' = data_callback ctx (robot_prefix ++ id ++ b'/' ∷ rest) raw t frame_time r in
        session_of other (get_sessions now r') ≡ (
          if bytes_eq (robot_prefix ++ id) other
          then some
              (record { robot_id = other; online = ltb (now - t) 5000; last_seen_ms = now - t })
          else session_of other (get_sessions now r))
  unfolding get_sessions data_callback
  session_of-data_callback ctx id rest raw other t frame_time now r h bytes valid before fits =
      let key = robot_prefix ++ id ++ b'/' ∷ rest in
      let (named, _) = robot_id_lem id rest h in
      let nonempty : (length raw == 0) ≡ false = ground (arith, bytes) in
      let seen : (track_session key t r).session_last_seen
          ≡ see (robot_prefix ++ id) t r.session_last_seen =
        track_session-some key t r named in
      rw (nonempty, valid)
        (ap (λ m. session_of other (map (session_info now) m))
            (sessions-route ctx raw frame_time (track_session key t r) ∙ seen)
          ∙ session_of-see (robot_prefix ++ id) other t now r before fits)
