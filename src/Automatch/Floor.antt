-- ===== src/Automatch/Floor.antt =====
-- What the delay arithmetic of src/automatch.rs guarantees to a pair.
use recomp_net_server.Common.{
  ℕ, ◌&&◌, string_eq, ◌+◌, ◌-◌, ◌≤◌, ◌<◌, ◌≡◌, ◌≢◌, ◌⊎◌, inl, inr, min, max, Bool, true, false,
  some, String, if◌then◌else◌, ◌==◌, nat_eq, arith, Bool-cases,
}
use recomp_net_server.Common.Int.{ℤ}
use recomp_net_server.External.{Json, JsonLaws, Float, get_field-set_field}
use recomp_net_server.Automatch.Delay.{
  wrap32, hosted_rollback_delay, hosted_rollback_prediction, hosted_delay_only, DelayFloor,
  frames_needed, rollback_pair, delay_only_pair, floor_of, authored_delay, authored_prediction,
  runs_rollback, delay_floor, caps_with_floor,
}

floor_of_bounds :
    (rollback : Bool) (needed base_d base_p : ℕ) (rtt : ℤ)
    → let r = floor_of rollback needed base_d base_p rtt in
      (2 ≤ r.input_delay)
      × (r.input_delay ≤ 20)
      × (2 ≤ r.input_prediction)
      × (r.input_prediction ≤ 16)
unfolding floor_of
floor_of_bounds true needed base_d base_p rtt = ground arith
floor_of_bounds false needed base_d base_p rtt = ground arith

-- The delay and the prediction lie in the launcher's ranges, 2 to 20 and 2 to 16, whatever the caps
-- and the measurements say.
pub delay_floor_bounds :
    (j : Json) (f : Float) (caps : j.Value) (rtt_a rtt_b : ℤ) (frame_ms : f.F64)
    → let r = delay_floor j f caps rtt_a rtt_b frame_ms in
      (2 ≤ r.input_delay)
      × (r.input_delay ≤ 20)
      × (2 ≤ r.input_prediction)
      × (r.input_prediction ≤ 16)
unfolding delay_floor
delay_floor_bounds j f caps rtt_a rtt_b frame_ms = floor_of_bounds _ _ _ _ _

hosted_pred_bounds :
    (d : ℕ) → (6 ≤ hosted_rollback_prediction d) × (hosted_rollback_prediction d ≤ 16)
unfolding hosted_rollback_prediction
hosted_pred_bounds d = ground arith

hosted_pred_mono :
    (d e : ℕ)
    → d ≤ e
    → e < 4_294_967_000
    → hosted_rollback_prediction d ≤ hosted_rollback_prediction e
unfolding hosted_rollback_prediction
hosted_pred_mono d e h l = ground arith

hosted_pred_covers : (d : ℕ) → d < 4_294_967_000 → min 16 (4 + d) ≤ hosted_rollback_prediction d
unfolding hosted_rollback_prediction
hosted_pred_covers d l = ground arith

hosted_delay_bounds : (rtt : ℤ) → (3 ≤ hosted_rollback_delay rtt) × (hosted_rollback_delay rtt ≤ 10)
unfolding hosted_rollback_delay
hosted_delay_bounds rtt = ground arith

rollback_pair_covers :
    (needed base_d base_p : ℕ) (rtt : ℤ)
    → needed < 1_000_000_000
    → base_d < 1_000_000_000
    → base_p < 1_000_000_000
    → let r = rollback_pair needed base_d base_p rtt in
      (needed ≤ r.0 + r.1)
      × (base_d ≤ r.0)
      × (base_p ≤ r.1)
      × (3 ≤ r.0)
      × (min 16 (4 + r.0) ≤ r.1)
      × (r.1 ≤ max 16 base_p)
unfolding rollback_pair
rollback_pair_covers needed base_d base_p rtt hn hd hp =
    let d = max (hosted_rollback_delay rtt) base_d in
    let p = max (hosted_rollback_prediction d) base_p in
    let d2 = wrap32 (d + (needed - wrap32 (d + p))) in
    ground (
      arith,
      hosted_delay_bounds rtt,
      hosted_pred_bounds d,
      hosted_pred_bounds d2,
      hosted_pred_mono d d2,
      hosted_pred_covers d,
      hosted_pred_covers d2,
    )

delay_only_covers :
    (needed base_d base_p : ℕ) (rtt : ℤ)
    → let r = delay_only_pair needed base_d base_p rtt in
      (needed ≤ r.0) × (base_d ≤ r.0) × (r.1 ≡ base_p) × (3 ≤ r.0)
unfolding delay_only_pair hosted_delay_only
delay_only_covers needed base_d base_p rtt = ground arith

-- Sizes at which no addition of `u32` wraps.
abbrev pub Moderate : ℕ → Type 0
Moderate n = n < 1_000_000_000

floor_of_covers :
    (rollback : Bool) (needed base_d base_p : ℕ) (rtt : ℤ)
    → needed ≢ 0
    → Moderate needed
    → Moderate base_d
    → base_p ≤ 16
    → let r = floor_of rollback needed base_d base_p rtt in
      (min base_d 20 ≤ r.input_delay)
      × (base_p ≤ r.input_prediction)
      × ((needed ≤ r.input_delay + (if rollback then r.input_prediction else 0))
          ⊎ (r.input_delay ≡ 20))
      × ((if rollback then min 16 (4 + r.input_delay) else 0) ≤ r.input_prediction)
unfolding floor_of
floor_of_covers true needed base_d base_p rtt h hn hd hp =
    ground (arith, rollback_pair_covers needed base_d base_p rtt)
floor_of_covers false needed base_d base_p rtt h hn hd hp =
    ground (arith, delay_only_covers needed base_d base_p rtt)

module _ (j : Json) (f : Float) (caps : j.Value) (rtt_a rtt_b : ℤ) (frame_ms : f.F64) where
  -- With both links measured, the frames that the link needs and the authored delay below 10^9, and an
  -- authored prediction of at most 16, the delay is
  -- never below the authored one (up to the launcher's 20), the prediction never below the authored
  -- one, and together they cover the frames that the link needs unless the delay is at its
  -- limit; without rollback the delay alone covers them, and with rollback the prediction is at least
  -- four more than the delay (up to the launcher's 16).
  pub delay_floor_covers :
      frames_needed f rtt_a rtt_b frame_ms ≢ 0
      → Moderate (frames_needed f rtt_a rtt_b frame_ms)
      → Moderate (authored_delay j caps)
      → authored_prediction j caps ≤ 16
      → let r = delay_floor j f caps rtt_a rtt_b frame_ms in
        (min (authored_delay j caps) 20 ≤ r.input_delay)
        × (authored_prediction j caps ≤ r.input_prediction)
        × ((frames_needed f rtt_a rtt_b frame_ms
              ≤ r.input_delay + (if runs_rollback j caps then r.input_prediction else 0))
            ⊎ (r.input_delay ≡ 20))
        × ((if runs_rollback j caps then min 16 (4 + r.input_delay) else 0) ≤ r.input_prediction)
  unfolding delay_floor
  delay_floor_covers h hn hd hp =
      floor_of_covers (runs_rollback j caps) _ (authored_delay j caps) (authored_prediction j caps)
        _ h hn hd hp

-- With rollback, a link that needs more than 26 frames, an authored delay of at most 10 and an authored
-- prediction that is at least the frames needed and below 10^9: the prediction is counted in full before it
-- is clamped to 16, so the delay stays at 10 or less and the pair runs fewer frames than the link needs.
pub long_prediction_hides_shortfall :
    (needed base_d base_p : ℕ) (rtt : ℤ)
    → base_d ≤ 10
    → 26 < needed
    → needed ≤ base_p
    → Moderate base_p
    → let r = floor_of true needed base_d base_p rtt in
      (r.input_delay ≤ 10) × (r.input_delay + r.input_prediction < needed)
unfolding floor_of rollback_pair
long_prediction_hides_shortfall needed base_d base_p rtt hd hn hp hm =
    ground
      (arith, hosted_delay_bounds rtt, hosted_pred_bounds (max (hosted_rollback_delay rtt) base_d))

distinct_keys : ◌≢◌ {A = String} "input_delay" "input_prediction"
distinct_keys = ground (arith, string_eq.equal_iff "input_delay" "input_prediction")

module _ (j : Json) (laws : JsonLaws j) where
  set_delay_keeps_rollback :
      (v x : j.Value)
      → j.is_object v ≡ true
      → runs_rollback j (j.set_field v "input_delay" x) ≡ runs_rollback j v
  unfolding runs_rollback
  set_delay_keeps_rollback v x o = rw (get_field-set_field j laws v x "input_delay" "rollback" o)

  -- The caps that a match launches with carry the floor's delay, its prediction exactly if they ask
  -- for rollback (and otherwise the authored one), and every other setting of an authored object.
  pub caps_with_floor_fields :
      (caps : j.Value) (r : DelayFloor) (k : String)
      → j.is_object caps ≡ true
      → j.get_field (caps_with_floor j caps r) k ≡ (
          if k == "input_delay"
          then some (j.from_u64 r.input_delay)
          else if k == "input_prediction" && runs_rollback j caps
          then some (j.from_u64 r.input_prediction)
          else j.get_field caps k)
  unfolding caps_with_floor
  caps_with_floor_fields caps r k o =
      let delayed = j.set_field caps "input_delay" (j.from_u64 r.input_delay) in
      let is_obj = laws.set_is_object caps (j.from_u64 r.input_delay) "input_delay" o in
      rw (o, set_delay_keeps_rollback caps (j.from_u64 r.input_delay) o)
        (elim (Bool-cases (runs_rollback j caps)) [
          | inl e ↦
              rw
                (
                  e,
                  get_field-set_field j laws delayed (j.from_u64 r.input_prediction)
                      "input_prediction" k is_obj,
                  get_field-set_field j laws caps (j.from_u64 r.input_delay) "input_delay" k o,
                )
                (ground (
                  arith,
                  string_eq.equal_iff k "input_delay",
                  string_eq.equal_iff k "input_prediction",
                  distinct_keys,
                ))
          | inr e ↦
              rw (e, get_field-set_field j laws caps (j.from_u64 r.input_delay) "input_delay" k o)
                (ground arith)
        ])
