-- ===== src/Examples/Roles.antt =====
-- app/roles.go on a cluster of four nodes, one of them offline.
use go_dqlite.Prelude.{
  Bool, ℕ, ◌≡◌, ◌≢◌, refl, ap, arith, Option, none, some, List, [], ◌∷◌, inl, inr,
}
use go_dqlite.Outcome.{ok}
use go_dqlite.Node.{NodeInfo, NodeRole, voter, spare}
use go_dqlite.App.Roles.{
  NodeMetadata, RolesChanges, Change, adjust, handover, assume, less, size, get, metadata, list,
  failure_domains, attach, offer, sorted_change, sort_candidates, assume_role, adjust_large,
  handover_from, select, find_id, lookup_node, node_eq, bytes_eq, has_domain, remove_id,
}
use go_dqlite.App.Roles.Runtime.{IsWeakOrder, Candidate}
use go_dqlite.App.Roles.Rank.{less-IsWeakOrder}
use go_dqlite.App.Roles.Members.{IsMap}
use go_dqlite.App.Roles.Handover.{HandoverResult}
use go_dqlite.App.Roles.Shutdown.{handover_lem}
use go_dqlite.App.Roles.Adjustment.{AdjustResult}
use go_dqlite.App.Roles.Adjust.{adjust_lem}
use go_dqlite.App.Roles.Assumption.{AssumeResult, assume_lem}
use go_dqlite.Examples.Sorting.{in_order, insertion_sort, insert, runtime}

abbrev node : ℕ → NodeRole → NodeInfo
node id role = record { id = id; address = []; role = role }

abbrev at : ℕ → ℕ → Option NodeMetadata
at failure_domain weight = some (record { failure_domain = failure_domain; weight = weight })

abbrev by_insertion : (Candidate → Candidate → Bool) → List Candidate → List Candidate
by_insertion less xs = insertion_sort less xs

-- A voter that leads, an offline voter, and two spares, one of them in the domain of the leader.
abbrev four : RolesChanges
four = record {
  config = record { voters = 2; stand_bys = 1 };
  state =
      (node 1 voter, at 1 0)
      ∷ (node 2 voter, none)
      ∷ (node 3 spare, at 1 0)
      ∷ (node 4 spare, at 2 5)
      ∷ [];
}

other_id : {a b : NodeInfo} → a.id ≢ b.id → a ≢ b
other_id n e = n (ap (λ x. x.id) e)

four-IsMap : IsMap four.state
four-IsMap = (
  (λ m h. elim h [
    | inl (e, _) ↦ other_id (omega arith) e
    | inr (inl (e, _)) ↦ other_id (omega arith) e
    | inr (inr (inl (e, _))) ↦ other_id (omega arith) e
    | inr (inr (inr z)) ↦ z
  ]),
  (
    (λ m h. elim h [
      | inl (e, _) ↦ other_id (omega arith) e
      | inr (inl (e, _)) ↦ other_id (omega arith) e
      | inr (inr z) ↦ z
    ]),
    ((λ m h. elim h [ inl (e, _) ↦ other_id (omega arith) e | inr z ↦ z ]), ((λ m h. h), tt)),
  ),
)

-- The spare of the other failure domain is preferred, though its weight is larger.
adjust-four :
    adjust in_order by_insertion four 1
    ≡ ok (record { role = voter; candidates = node 4 spare ∷ node 3 spare ∷ [] })
unfolding adjust size adjust_large list select in_order offer sorted_change sort_candidates attach
    metadata lookup_node node_eq bytes_eq failure_domains less has_domain insertion_sort insert
adjust-four = refl

-- The leader hands its role over to the same nodes in an order by their weight, since no other voter
-- is online.
handover-four :
    handover in_order by_insertion four 1
    ≡ ok (record { role = voter; candidates = node 3 spare ∷ node 4 spare ∷ [] })
unfolding handover get find_id handover_from remove_id list select in_order offer sorted_change
    sort_candidates attach metadata lookup_node node_eq bytes_eq failure_domains less has_domain
    insertion_sort insert
handover-four = refl

assume-four : assume in_order by_insertion four 4 ≡ voter
unfolding assume get find_id assume_role size list select in_order
assume-four = refl

adjust_lem_example :
    (ch : Change) × (adjust in_order by_insertion four 1 ≡ ok ch)
    × AdjustResult in_order by_insertion four 1 ch
adjust_lem_example = adjust_lem in_order by_insertion four runtime four-IsMap 1

handover_lem_example :
    (ch : Change) × (handover in_order by_insertion four 1 ≡ ok ch)
    × HandoverResult in_order by_insertion four 1 ch
handover_lem_example = handover_lem in_order by_insertion four runtime four-IsMap 1

assume_lem_example : AssumeResult in_order by_insertion four 4 (assume in_order by_insertion four 4)
assume_lem_example = assume_lem in_order by_insertion four runtime 4

less-IsWeakOrder_example : IsWeakOrder (less (1 ∷ 2 ∷ []))
less-IsWeakOrder_example = less-IsWeakOrder (1 ∷ 2 ∷ [])
