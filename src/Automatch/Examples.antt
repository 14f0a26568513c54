-- ===== src/Automatch/Examples.antt =====
-- Concrete settings, tickets and queues, and instances of the theorems on src/automatch.rs.
use recomp_net_server.Common.{
  ℕ, ◌+◌, ◌-◌, ◌*◌, ◌/◌, ◌≤◌, ◌<◌, ◌≡◌, ◌≢◌, ◌⊎◌, refl, min, Bool, true, false, Option, none, some,
  String, if◌then◌else◌, ◌==◌, nat_eq, string_eq, arith, ==_refl,
}
use recomp_net_server.Common.Int.{pos}
use recomp_net_server.External.{Json, JsonLaws, Float}
use recomp_net_server.Automatch.Delay.{
  frames_needed, floor_of, authored_delay, authored_prediction, runs_rollback, delay_floor,
}
use recomp_net_server.Automatch.Floor.{delay_floor_covers, long_prediction_hides_shortfall}

-- An object is what was set last on the rest.
pub data Value : Type 0 where
  number : ℕ → Value
  flag : Bool → Value
  text : String → Value
  blank : Value
  field : String → Value → Value → Value

unfoldable pub get_in : Value → String → Option Value
get_in (number n) l = none
get_in (flag b) l = none
get_in (text t) l = none
get_in blank l = none
get_in (field k x rest) l = let found = get_in rest l in if k == l then some x else found

abbrev u64_in : Value → Option ℕ
u64_in (number n) = some n
u64_in (flag b) = none
u64_in (text t) = none
u64_in blank = none
u64_in (field k x rest) = none

abbrev bool_in : Value → Option Bool
bool_in (number n) = none
bool_in (flag b) = some b
bool_in (text t) = none
bool_in blank = none
bool_in (field k x rest) = none

abbrev pub str_in : Value → Option String
str_in (number n) = none
str_in (flag b) = none
str_in (text t) = some t
str_in blank = none
str_in (field k x rest) = none

abbrev object_in : Value → Bool
object_in (number n) = false
object_in (flag b) = false
object_in (text t) = false
object_in blank = true
object_in (field k x rest) = true

abbrev pub values : Json
values = record {
  Value = Value;
  get_field = get_in;
  as_u64 = u64_in;
  as_bool = bool_in;
  as_str = str_in;
  is_object = object_in;
  is_null = λ v. false;
  empty_object = blank;
  from_u64 = number;
  from_str = text;
  set_field = λ v k x. field k x v;
  printed_len = λ v. 0;
}

get_in-field_self : (v x : Value) (k : String) → get_in (field k x v) k ≡ some x
unfolding get_in
get_in-field_self v x k = rw (==_refl k) refl

get_in-field_ne : (v x : Value) (k l : String) → k ≢ l → get_in (field k x v) l ≡ get_in v l
unfolding get_in
get_in-field_ne v x k l d = ground (arith, string_eq.equal_iff k l)

pub values_laws : JsonLaws values
values_laws = record {
  empty_is_object = refl;
  set_is_object = λ v x k h. refl;
  get-set_self = λ v x k h. get_in-field_self v x k;
  get-set_ne = λ v x k l h d. get_in-field_ne v x k l d;
  as_str-from_str = λ t. refl;
  as_u64-from_u64 = λ n h. refl;
}

-- Fractions of naturals.
abbrev fractions : Float
fractions = record {
  F64 = ℕ × ℕ;
  from_ℕ = λ n. (n, 1);
  add = λ x y. (x.0 * y.1 + y.0 * x.1, x.1 * y.1);
  div = λ x y. (x.0 * y.1, x.1 * y.0);
  le_zero = λ x. x.0 == 0;
  ceil_u32 = λ x. (x.0 + x.1 - 1) / x.1;
}

-- Rollback with a delay of 3 frames and a prediction of 8.
abbrev rollback_caps : Value
rollback_caps =
    field "input_delay" (number 3)
      (field "input_prediction" (number 8) (field "rollback" (flag true) blank))

needed_frames : frames_needed fractions (pos 90) (pos 80) (16, 1) ≡ 7
unfolding frames_needed
needed_frames = refl

delay_authored : authored_delay values rollback_caps ≡ 3
unfolding authored_delay get_in
delay_authored = refl

prediction_authored : authored_prediction values rollback_caps ≡ 8
unfolding authored_prediction get_in
prediction_authored = refl

delay_floor_covers_example :
    let r = delay_floor values fractions rollback_caps (pos 90) (pos 80) (16, 1) in
    (min (authored_delay values rollback_caps) 20 ≤ r.input_delay)
    × (authored_prediction values rollback_caps ≤ r.input_prediction)
    × ((frames_needed fractions (pos 90) (pos 80) (16, 1)
          ≤ r.input_delay + (if runs_rollback values rollback_caps then r.input_prediction else 0))
        ⊎ (r.input_delay ≡ 20))
    × ((if runs_rollback values rollback_caps then min 16 (4 + r.input_delay) else 0)
        ≤ r.input_prediction)
delay_floor_covers_example =
    delay_floor_covers values fractions rollback_caps (pos 90) (pos 80) (16, 1)
      (ground (arith, needed_frames)) (ground (arith, needed_frames))
      (ground (arith, delay_authored)) (ground (arith, prediction_authored))

-- An authored prediction of 60 and a link that needs 50 frames.
long_prediction_hides_shortfall_example :
    let r = floor_of true 50 3 60 (pos 1500) in
    (r.input_delay ≤ 10) × (r.input_delay + r.input_prediction < 50)
long_prediction_hides_shortfall_example =
    long_prediction_hides_shortfall 50 3 60 (pos 1500) (omega arith) (omega arith) (omega arith)
      (omega arith)
