-- ===== src/Agent/Workloads/Returns.antt =====
-- What a computation over a run (`RuntimeStore` of src/agent_surface/runtime.py) that returns has
-- gone through.
use frontier_long_horizon_en.Prelude.{◌≡◌, refl, Result, ok, err, arith}
use frontier_long_horizon_en.Prelude.Exec.{gets}
use frontier_long_horizon_en.Agent.Runtime.{Stop, Run, M, ◌>>=◌}

pub bind_returned :
    {A B : Type 0} (k : A → M B) (x : Result Stop A × Run) (b : B) (r2 : Run)
    → ((λ (_ : Run). x) >>= k) x.1 ≡ (ok b, r2)
    → (a : A) × ((r1 : Run) × ((x ≡ (ok a, r1)) × (k a r1 ≡ (ok b, r2))))
bind_returned k (ok a, r1) b r2 h = (a, (r1, (refl, h)))
bind_returned k (err e, r1) b r2 h = ground arith

-- Steps that end by reading a value off the run.
pub gets_returned :
    {A B : Type 0} (m : M A) (h : A → Run → B) (r r' : Run) (b : B)
    → (m >>= λ a. gets (h a)) r ≡ (ok b, r')
    → (a : A) × (b ≡ h a r')
gets_returned m h r r' b e =
    let before = bind_returned (λ a. gets (h a)) (m r) b r' e in
    (before.0, ground (arith, before.1.1.1))
