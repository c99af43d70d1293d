-- ===== src/Cluster/Join.antt =====
-- Which requests to join are answered.
use ziyad_messenger.Base.{ℕ, ◌≤◌, len, ◌≡◌, ◌≢◌, ◌⊎◌, arith, eq_iff}
use ziyad_messenger.Base.Text.{trim_space}
use ziyad_messenger.Base.Http.{reply}
use ziyad_messenger.Cluster.{JoinRequest, join_handler}

-- A join that is answered with a reply came by GET or POST, with an id and an address that are not empty without
-- the space around them, and no longer than 64 and 128 bytes.
pub join_handler-eq-reply :
    (r : JoinRequest) (code : ℕ)
    → join_handler r ≡ reply code tt
    → ((r.method ≡ "GET") ⊎ (r.method ≡ "POST"))
      × (trim_space r.node_id ≢ "")
      × (len (trim_space r.node_id) ≤ 64)
      × (trim_space r.addr ≢ "")
      × (len (trim_space r.addr) ≤ 128)
unfolding join_handler
join_handler-eq-reply r code h = (
  ground (arith, eq_iff r.method "GET", eq_iff r.method "POST"),
  λ e. ground (arith, eq_iff (trim_space r.node_id) ""),
  ground arith,
  λ e. ground (arith, eq_iff (trim_space r.addr) ""),
  ground arith,
)
