-- ===== src/Controller/Setup.antt =====
-- The fields that `SetupWithManager` of internal/controller/poddiagnosis_controller.go defaults. The
-- builder's registration of the controller, which follows, belongs to controller-runtime.
pub mod Laws
mod Tests
use poddoctor.Prelude.{
  ℕ, Option, none, some, ◌*◌, ◌/◌, ◌^◌, ℤ, pos, pos_part, ltb, leb_ℤ, if◌then◌else◌,
}
use poddoctor.Api.{Duration}
use poddoctor.AlertGroup.{Grouper, new}
use poddoctor.Controller.Evidence.{Settings, second, rollout_window}

-- A finite float64: mantissa / 2^shift.
pub record Float : Type 0 where
  pub mantissa : ℤ
  pub shift : ℕ

-- What rate.NewLimiter is made with; no burst is a number that Go's conversion leaves open.
pub record Limiter : Type 0 where
  pub rate : Float
  pub burst : Option ℤ

pub record Setup : Type 0 where
  pub settings : Settings
  pub grouper : Option Grouper
  pub alert_group_window : Duration
  pub limiter : Option Limiter
  pub evidence_qps : Float

-- int(qps*2) of a positive number: cut to a whole number, if that is in the range of an int.
unfoldable pub burst_of : Float → Option ℤ
burst_of qps =
    let whole = pos_part qps.mantissa * 2 / 2 ^ qps.shift in
    if ltb whole (2 ^ 63) then some (pos whole) else none

abbrev pub twenty : Float
twenty = record { mantissa = pos 20; shift = 0 }

unfoldable pub default_lines : ℤ → ℤ
default_lines n = if leb_ℤ n (pos 0) then pos 50 else n

unfoldable pub default_duration : ℕ → Duration → Duration
default_duration seconds window = if leb_ℤ window (pos 0) then pos (seconds * second) else window

unfoldable pub default_grouper : Setup → Grouper
unfolding default_duration
default_grouper r = elim r.grouper [
  | none ↦ new (default_duration 120 r.alert_group_window)
  | some g ↦ g
]

unfoldable pub default_limiter : Setup → Limiter
unfolding burst_of
default_limiter r = elim r.limiter [
  | none ↦
      let qps = if leb_ℤ r.evidence_qps.mantissa (pos 0) then twenty else r.evidence_qps in
      record { rate = qps; burst = burst_of qps }
  | some l ↦ l
]

-- `SetupWithManager`, up to the registration.
unfoldable pub set_up : Setup → Setup
unfolding default_lines default_duration default_grouper default_limiter
set_up r = record r {
  settings = record {
    log_tail_lines = default_lines r.settings.log_tail_lines;
    rollout_window = default_duration 600 r.settings.rollout_window;
  };
  grouper = some (default_grouper r);
  limiter = some (default_limiter r);
}
