-- ===== src/App/Roles/Rank.antt =====
-- The comparison of sortCandidates is a strict weak order.
use go_dqlite.Prelude.{ℕ, arith, List}
use go_dqlite.App.Roles.{less, has_domain}
use go_dqlite.App.Roles.Runtime.{IsWeakOrder}

-- For every set of failure domains the comparison of sortCandidates is a strict weak order.
pub less-IsWeakOrder : (domains : List ℕ) → IsWeakOrder (less domains)
unfolding less
less-IsWeakOrder domains = record {
  asymm = λ (_, m) (_, n) h.
      let a = has_domain domains m.failure_domain in
      let b = has_domain domains n.failure_domain in ground arith;
  cotrans = λ (_, m) (_, n) (_, k) h. ground arith;
}
