-- ===== src/Tests/Wire.antt =====
-- An encoding of messages in numbers, with the laws of `FlatBuffers`.
use Prim.Native.Char.{Char, char, code, nul, IsScalar, IsLt}
use Prim.Native.Nat.{Ordering, compare}
use Prim.Native.String.{String}
use flowkernel.Base.{
  ℕ, zero, suc, ◌≡◌, ◌≢◌, refl, ap, ap₂, List, [], ◌∷◌, Option, none, some, true, arith, leb,
  length,
}
use flowkernel.Hash.{Bytes}
use flowkernel.Messages.{
  MessageType, telemetry_type, control_type, estop_type, Vec3, MessagePayload, no_payload,
  telemetry, control, estop, RobotMessage, FlatBuffers,
}
use flowkernel.Tests.Data.{linux}

-- That a number is a character, by how it compares to the bounds.
abbrev BothLt : Ordering → Ordering → Type 0
BothLt Ordering.lt o = IsLt o
BothLt Ordering.eq _ = ⊥
BothLt Ordering.gt _ = ⊥

abbrev LtOrBothLt : Ordering → Ordering → Ordering → Type 0
LtOrBothLt Ordering.lt _ _ = Unit
LtOrBothLt Ordering.eq o p = BothLt o p
LtOrBothLt Ordering.gt o p = BothLt o p

abbrev both : (o p : Ordering) → Option (BothLt o p)
both Ordering.lt Ordering.lt = some tt
both Ordering.lt Ordering.eq = none
both Ordering.lt Ordering.gt = none
both Ordering.eq p = none
both Ordering.gt p = none

abbrev scalar : (o p q : Ordering) → Option (LtOrBothLt o p q)
scalar Ordering.lt p q = some tt
scalar Ordering.eq p q = both p q
scalar Ordering.gt p q = both p q

both_lem : (o p : Ordering) (h : BothLt o p) → both o p ≡ some h
both_lem Ordering.lt Ordering.lt h = refl
both_lem Ordering.lt Ordering.eq h = absurd h
both_lem Ordering.lt Ordering.gt h = absurd h
both_lem Ordering.eq p h = absurd h
both_lem Ordering.gt p h = absurd h

scalar_lem : (o p q : Ordering) (h : LtOrBothLt o p q) → scalar o p q ≡ some h
scalar_lem Ordering.lt p q h = refl
scalar_lem Ordering.eq p q h = both_lem p q h
scalar_lem Ordering.gt p q h = both_lem p q h

abbrev char_or_nul : (n : ℕ) → Option (IsScalar n) → Char
char_or_nul n none = nul
char_or_nul n (some h) = char n h

abbrev to_char : ℕ → Char
to_char n = char_or_nul n (scalar (compare n 55296) (compare 57343 n) (compare n 1114112))

to_char-code : (c : Char) → to_char (code c) ≡ c
to_char-code (char n h) =
    ap (char_or_nul n) (scalar_lem (compare n 55296) (compare 57343 n) (compare n 1114112) h)

abbrev codes : String → List ℕ
codes String.[] = []
codes (String.◌∷◌ c s) = code c ∷ codes s

abbrev of_codes : List ℕ → String
of_codes [] = String.[]
of_codes (n ∷ ns) = String.◌∷◌ (to_char n) (of_codes ns)

of_codes-codes : (s : String) → of_codes (codes s) ≡ s
of_codes-codes String.[] = refl
of_codes-codes (String.◌∷◌ c s) = ap₂ String.◌∷◌ (to_char-code c) (of_codes-codes s)

-- A vector that may be missing takes four numbers.
abbrev put_vec : Option (Vec3 ℕ) → List ℕ → List ℕ
put_vec none rest = 0 ∷ 0 ∷ 0 ∷ 0 ∷ rest
put_vec (some v) rest = 1 ∷ v.x ∷ v.y ∷ v.z ∷ rest

abbrev vec : ℕ → ℕ → ℕ → ℕ → Option (Vec3 ℕ)
vec zero x y z = none
vec (suc n) x y z = some (record { x = x; y = y; z = z })

abbrev put_text : Option String → List ℕ
put_text none = []
put_text (some s) = 1 ∷ codes s

abbrev reason_of : List ℕ → Option String
reason_of [] = none
reason_of (n ∷ ns) = some (of_codes ns)

abbrev put_payload : MessagePayload ℕ → List ℕ
put_payload no_payload = 0 ∷ 0 ∷ 0 ∷ 0 ∷ []
put_payload (telemetry t) =
    1 ∷ t.timestamp ∷ t.battery_voltage ∷ t.cpu_usage ∷ put_vec t.pos (put_vec t.vel [])
put_payload (control c) = 2 ∷ c.timestamp ∷ 0 ∷ 0 ∷ put_vec c.linear_vel (put_vec c.angular_vel [])
put_payload (estop e) = 3 ∷ e.timestamp ∷ 0 ∷ 0 ∷ put_text e.reason

-- The two vectors behind the first numbers.
abbrev vecs : List ℕ → Option (Vec3 ℕ) × Option (Vec3 ℕ)
vecs (a ∷ x ∷ y ∷ z ∷ b ∷ u ∷ v ∷ w ∷ []) = (vec a x y z, vec b u v w)
vecs _ = (none, none)

abbrev payload_of : ℕ → ℕ → ℕ → ℕ → List ℕ → MessagePayload ℕ
payload_of zero t b c rest = no_payload
payload_of (suc zero) t b c rest = telemetry (record {
  timestamp = t;
  pos = (vecs rest).0;
  vel = (vecs rest).1;
  battery_voltage = b;
  cpu_usage = c;
})
payload_of (suc (suc zero)) t b c rest =
    control (record { timestamp = t; linear_vel = (vecs rest).0; angular_vel = (vecs rest).1 })
payload_of (suc (suc (suc n))) t b c rest =
    estop (record { timestamp = t; reason = reason_of rest })

abbrev type_number : MessageType → ℕ
type_number telemetry_type = 0
type_number control_type = 1
type_number estop_type = 2

abbrev type_of : ℕ → MessageType
type_of zero = telemetry_type
type_of (suc zero) = control_type
type_of (suc (suc n)) = estop_type

abbrev pub finish : RobotMessage ℕ → Bytes
finish m = type_number m.message_type ∷ m.seq ∷ put_payload m.payload

abbrev pub get_robot_message : Bytes → RobotMessage ℕ
get_robot_message (ty ∷ n ∷ tag ∷ t ∷ b ∷ c ∷ rest) = record {
  message_type = type_of ty;
  seq = n;
  payload = payload_of tag t b c rest;
}
get_robot_message _ = record { message_type = telemetry_type; seq = 0; payload = no_payload }

type_of-type_number : (t : MessageType) → type_of (type_number t) ≡ t
type_of-type_number telemetry_type = refl
type_of-type_number control_type = refl
type_of-type_number estop_type = refl

vecs_lem : (v w : Option (Vec3 ℕ)) → vecs (put_vec v (put_vec w [])) ≡ (v, w)
vecs_lem none none = refl
vecs_lem none (some w) = refl
vecs_lem (some v) none = refl
vecs_lem (some v) (some w) = refl

reason_of-put_text : (o : Option String) → reason_of (put_text o) ≡ o
reason_of-put_text none = refl
reason_of-put_text (some s) = ap some (of_codes-codes s)

pub payload_of_lem :
    (ty : MessageType) (n : ℕ) (x : MessagePayload ℕ)
    → get_robot_message (type_number ty ∷ n ∷ put_payload x)
      ≡ record { message_type = ty; seq = n; payload = x }
payload_of_lem ty n no_payload =
    ap (λ y. record { message_type = y; seq = n; payload = no_payload }) (type_of-type_number ty)
payload_of_lem ty n (telemetry t) =
    ap₂
      (λ y (v : Option (Vec3 ℕ) × Option (Vec3 ℕ)). record {
        message_type = y;
        seq = n;
        payload = telemetry (record t { pos = v.0; vel = v.1 });
      })
      (type_of-type_number ty) (vecs_lem t.pos t.vel)
payload_of_lem ty n (control c) =
    ap₂
      (λ y (v : Option (Vec3 ℕ) × Option (Vec3 ℕ)). record {
        message_type = y;
        seq = n;
        payload = control (record c { linear_vel = v.0; angular_vel = v.1 });
      })
      (type_of-type_number ty) (vecs_lem c.linear_vel c.angular_vel)
payload_of_lem ty n (estop e) =
    ap₂ (λ y s. record { message_type = y; seq = n; payload = estop (record e { reason = s }) })
      (type_of-type_number ty) (reason_of-put_text e.reason)

pub long_payload : (x : MessagePayload ℕ) (a b : ℕ) → leb 4 (length (a ∷ b ∷ put_payload x)) ≡ true
long_payload no_payload a b = refl
long_payload (telemetry t) a b = ground arith
long_payload (control c) a b = ground arith
long_payload (estop e) a b = ground arith

pub not_empty : (m : RobotMessage ℕ) → length (finish m) ≢ 0
not_empty m e = cc

abbrev pub wire : FlatBuffers linux
wire = record {
  Float = ℕ;
  finish = finish;
  get_robot_message = get_robot_message;
  finish-verify = λ m. long_payload m.payload (type_number m.message_type) m.seq;
  finish_not_empty = not_empty;
  get_robot_message-finish = λ m. payload_of_lem m.message_type m.seq m.payload;
}
