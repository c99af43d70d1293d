-- ===== src/Admin/Monitoring/Equivalence.antt =====
-- The overview against the handlers of its parts.
use ziyad_messenger.Base.{ℕ, ◌/◌, ◌≡◌, arith}
use ziyad_messenger.Admin.Monitoring.{
  Tables, Host, Faults, ◌>>=◌, return, table_exists, network, users, messages, files, system,
  build_overview,
}

-- The overview is what the five handlers answer one after the other, also where the engine fails at some calls, and
-- the engine is called as often.
pub build_overview_lem :
    (host : Host) (now memory_alloc : ℕ) (t : Tables) (faults : Faults)
    → build_overview host now t memory_alloc faults
      ≡ (do
        n ← network host now t
        u ← users host now t
        m ← messages host now t
        f ← files host now t
        return (record {
          generated_at = now / 1000;
          network = n;
          users = u;
          messages = m;
          files = f;
          system = system host now t memory_alloc;
        }))
          faults
unfolding build_overview network users messages files system table_exists
build_overview_lem host now memory_alloc t faults = ground arith
