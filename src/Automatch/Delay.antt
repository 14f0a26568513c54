-- ===== src/Automatch/Delay.antt =====
-- The delay arithmetic of src/automatch.rs, from `frames_needed` to `sanitize_rtt`. Additions of `u32`
-- wrap around, as in a release build.
use recomp_net_server.Common.{
  ℕ, ◌+◌, ◌-◌, ◌/◌, ◌%◌, min, max, Bool, false, ◌||◌, Option, none, some, ltb, leb, if◌then◌else◌,
  ◌==◌, nat_eq,
}
use recomp_net_server.Common.Int.{ℤ, pos, negsuc, is_negative, to_ℕ, i32_max, saturating_add}
use recomp_net_server.External.{Json, Float}

abbrev pub jitter_margin_frames : ℕ
jitter_margin_frames = 1

abbrev pub min_delay : ℕ
min_delay = 2

abbrev pub max_delay : ℕ
max_delay = 20

abbrev pub min_prediction : ℕ
min_prediction = 2

abbrev pub max_prediction : ℕ
max_prediction = 16

abbrev pub max_reported_rtt_ms : ℕ
max_reported_rtt_ms = 2000

-- `u32` arithmetic.
abbrev pub wrap32 : ℕ → ℕ
wrap32 n = n % 4_294_967_296

-- `Ord::clamp`
abbrev pub clamp : ℕ → ℕ → ℕ → ℕ
clamp lo hi x = if ltb x lo then lo else if ltb hi x then hi else x

unfoldable pub hosted_rollback_delay : ℤ → ℕ
hosted_rollback_delay rtt_ms =
    let rtt = to_ℕ rtt_ms in
    clamp 3 12 (
      if ltb rtt 50
      then 3
      else if ltb rtt 80
      then 4
      else if ltb rtt 120
      then 6
      else if ltb rtt 160
      then 7
      else if ltb rtt 200
      then 8
      else if ltb rtt 260
      then 9
      else 10)

unfoldable pub hosted_rollback_prediction : ℕ → ℕ
hosted_rollback_prediction delay = clamp 6 max_prediction (wrap32 (4 + max delay 2))

-- `(rtt + 32) / 33` on `i32`: past the largest `i32` the sum wraps to a negative number, and the
-- quotient is below 1.
unfoldable pub hosted_delay_only : ℤ → ℕ
hosted_delay_only rtt_ms =
    let rtt = to_ℕ rtt_ms in
    let one_way_frames = if leb (rtt + 32) i32_max then max ((rtt + 32) / 33) 1 else 1 in
    clamp 3 max_delay (one_way_frames + 3)

unfoldable pub sanitize_rtt : ℤ → ℤ
sanitize_rtt (negsuc n) = negsuc 0
sanitize_rtt (pos n) = pos (min n max_reported_rtt_ms)

pub record DelayFloor : Type 0 where
  pub input_delay : ℕ
  pub input_prediction : ℕ
  pub needed : ℕ

abbrev unwrap_or {ℓ} : {A : Type ℓ} → Option A → A → A
unwrap_or none d = d
unwrap_or (some a) d = a

abbrev and_then : {A B : Type 0} → Option A → (A → Option B) → Option B
and_then none f = none
and_then (some a) f = f a

module _ (f : Float) where
  unfoldable pub frames_needed : ℤ → ℤ → f.F64 → ℕ
  frames_needed rtt_a rtt_b frame_ms =
      if is_negative rtt_a || is_negative rtt_b || f.le_zero frame_ms
      then 0
      else (let one_way =
            f.div (f.add (f.from_ℕ (to_ℕ rtt_a)) (f.from_ℕ (to_ℕ rtt_b))) (f.from_ℕ 2) in
          wrap32 (f.ceil_u32 (f.div one_way frame_ms) + jitter_margin_frames))

-- The delay and the prediction of a rollback match, before the launcher's clamps.
unfoldable pub rollback_pair : (needed base_d base_p : ℕ) → ℤ → ℕ × ℕ
rollback_pair needed base_d base_p pair_rtt =
    let d = max (hosted_rollback_delay pair_rtt) base_d in
    let p = max (hosted_rollback_prediction d) base_p in
    let shortfall = needed - wrap32 (d + p) in
    let d2 = wrap32 (d + shortfall) in
    if shortfall == 0 then (d, p) else (d2, max (hosted_rollback_prediction d2) base_p)

unfoldable pub delay_only_pair : (needed base_d base_p : ℕ) → ℤ → ℕ × ℕ
delay_only_pair needed base_d base_p pair_rtt =
    (max (max (hosted_delay_only pair_rtt) needed) base_d, base_p)

-- `delay_floor` once the settings are read out of the caps and the frames are known.
unfoldable pub floor_of : (rollback : Bool) (needed base_d base_p : ℕ) → ℤ → DelayFloor
floor_of rollback needed base_d base_p pair_rtt =
    let (d, p) =
      if rollback
      then rollback_pair needed base_d base_p pair_rtt
      else delay_only_pair needed base_d base_p pair_rtt in
    if needed == 0
    then record {
      input_delay = clamp min_delay max_delay base_d;
      input_prediction = clamp min_prediction max_prediction base_p;
      needed = 0;
    }
    else record {
      input_delay = clamp min_delay max_delay d;
      input_prediction = clamp min_prediction max_prediction p;
      needed = needed;
    }

module _ (j : Json) where
  unfoldable pub authored_delay : j.Value → ℕ
  authored_delay caps =
      wrap32 (unwrap_or (and_then (j.get_field caps "input_delay") j.as_u64) min_delay)

  unfoldable pub authored_prediction : j.Value → ℕ
  authored_prediction caps =
      wrap32 (unwrap_or (and_then (j.get_field caps "input_prediction") j.as_u64) min_prediction)

  unfoldable pub runs_rollback : j.Value → Bool
  runs_rollback caps = unwrap_or (and_then (j.get_field caps "rollback") j.as_bool) false

  unfoldable pub delay_floor : (f : Float) → j.Value → ℤ → ℤ → f.F64 → DelayFloor
  delay_floor f caps rtt_a rtt_b frame_ms =
      floor_of (runs_rollback caps) (frames_needed f rtt_a rtt_b frame_ms) (authored_delay caps)
        (authored_prediction caps) (saturating_add rtt_a rtt_b)

  unfoldable pub caps_with_floor : j.Value → DelayFloor → j.Value
  unfolding runs_rollback
  caps_with_floor caps floor =
      let out = if j.is_object caps then caps else j.empty_object in
      let out' = j.set_field out "input_delay" (j.from_u64 floor.input_delay) in
      if runs_rollback out'
      then j.set_field out' "input_prediction" (j.from_u64 floor.input_prediction)
      else out'
