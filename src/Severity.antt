-- ===== src/Severity.antt =====
-- internal/severity/severity.go: the coarse severity of a root cause, over the name that the
-- dashboards have.
pub mod Laws
mod Tests
use poddoctor.Prelude.{String, ◌||◌, ◌==◌, if◌then◌else◌}

-- `Of`
unfoldable pub severity_of : String → String
severity_of root_cause =
    if root_cause == "OOMKilled" || root_cause == "SegFault"
    then "critical"
    else if root_cause == "ImagePullError"
        || root_cause == "BadCommand"
        || root_cause == "ProbeFailure"
    then "high"
    else if root_cause == "SignalKilled"
        || root_cause == "RecentRolloutRegression"
        || root_cause == "ApplicationError"
    then "medium"
    else "unknown"
