-- ===== src/Jobs/Submission/Saved.antt =====
-- jobs.go: the keys that a submission writes are apart.
use gatew_ai.Base.{◌≢◌, refl, sym, String, eq_iff, prefix-ne, arith}
use gatew_ai.Jobs.{job_key, job_meta_key, scan_gate_key, idempotency_key}

pub job_idem : (id consumer key : String) → job_key id ≢ idempotency_key consumer key
job_idem id consumer key =
    prefix-ne "job:" "idem" ":" id _ refl (ground (arith, eq_iff "job:" "idem"))

pub meta_idem : (id consumer key : String) → job_meta_key id ≢ idempotency_key consumer key
meta_idem id consumer key e =
    prefix-ne "idem:" "jobme" "ta:" _ id refl (ground (arith, eq_iff "idem:" "jobme")) (sym e)

pub gate_idem : (id consumer key : String) → scan_gate_key id ≢ idempotency_key consumer key
gate_idem id consumer key e =
    prefix-ne "idem:" "jobsc" "an:" _ id refl (ground (arith, eq_iff "idem:" "jobsc")) (sym e)

pub job_gate : (id other : String) → job_key id ≢ scan_gate_key other
job_gate id other =
    prefix-ne "job:" "jobs" "can:" id other refl (ground (arith, eq_iff "job:" "jobs"))

pub meta_gate : (id other : String) → job_meta_key id ≢ scan_gate_key other
meta_gate id other =
    prefix-ne "jobmeta:" "jobscan:" "" id other refl (ground (arith, eq_iff "jobmeta:" "jobscan:"))
