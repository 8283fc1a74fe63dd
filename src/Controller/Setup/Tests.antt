-- ===== src/Controller/Setup/Tests.antt =====
-- The defaults on a reconciler with nothing configured, and on a slow rate.
use poddoctor.Prelude.{ℤ, some, none, arith, ◌≡◌, ◌≤◌, ◌*◌, ◌^◌, ◌↔◌, ◌⊎◌, refl, pos, negsuc, ◌≤ℤ◌}
use poddoctor.Controller.Setup.{Setup, Float, default_limiter, burst_of}
use poddoctor.Controller.Setup.Laws.{burst-set_up}

-- --evidence-qps=0.25
abbrev quarter : Float
quarter = record { mantissa = pos 1; shift = 2 }

abbrev bare : Setup
bare = record {
  settings = record { log_tail_lines = pos 0; rollout_window = negsuc 0 };
  grouper = none;
  alert_group_window = pos 0;
  limiter = none;
  evidence_qps = quarter;
}

burst-set_up_example :
    (burst : ℤ) × ((default_limiter bare).burst ≡ some burst)
    × ((pos 1 ≤ℤ burst) ↔ ((pos 1 ≤ℤ pos 0) ⊎ (2 ^ 2 ≤ 1 * 2)))
burst-set_up_example = burst-set_up bare refl (omega arith)

-- The limiter of that rate has no burst.
no_burst : (default_limiter bare).burst ≡ some (pos 0)
unfolding default_limiter burst_of
no_burst = refl
