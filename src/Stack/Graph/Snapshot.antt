-- ===== src/Stack/Graph/Snapshot.antt =====
-- `StackSnapshot.__post_init__`: what a snapshot that was made is.
use sira_seil_cockroach_aws.Base.Order.{text_le, text_le_total, text_le_trans}
use sira_seil_cockroach_aws.Base.Shuffle.{Pairwise, Shuffle, IsSorted-Pairwise, sorted_is_Shuffle}
use sira_seil_cockroach_aws.Base.Sort.{sorted, sorted-IsSorted}
use sira_seil_cockroach_aws.Domain.Ids.{require_hash}
use sira_seil_cockroach_aws.Stack.Models.{
  node_le, edge_le, StackSnapshot, SnapshotPayload, snapshot_payload, sort_nodes, sort_edges,
}
use sira_seil_cockroach_aws.Stack.Graph.{
  text_le, StackEdge, StackNode, validate_graph, settle_hash, make_snapshot,
}
use sira_seil_cockroach_aws.Base.{ℕ, ◌≤◌, String, ◌≡◌, sym, subst, true, List, arith, eq_iff, ok}

sorted_by :
    {A : Type 0} (id : A → String) (xs : List A)
    → Pairwise (λ a b. text_le (id a) (id b) ≡ true) (sorted (λ a b. text_le (id a) (id b)) xs)
sorted_by id xs =
    IsSorted-Pairwise (λ a b. text_le (id a) (id b)) (sorted (λ a b. text_le (id a) (id b)) xs)
      (sorted-IsSorted (λ a b. text_le (id a) (id b)) (λ a b. text_le_total (id a) (id b))
        (λ a b c. text_le_trans (id a) (id b) (id c)) xs)

sort_nodes_is_Shuffle : (ns : List StackNode) → Shuffle ns (sort_nodes ns)
unfolding sort_nodes
sort_nodes_is_Shuffle ns = sorted_is_Shuffle node_le ns

sort_nodes_by_id :
    (ns : List StackNode) → Pairwise (λ a b. text_le a.node_id b.node_id ≡ true) (sort_nodes ns)
unfolding sort_nodes
sort_nodes_by_id ns = sorted_by (λ (n : StackNode). n.node_id) ns

sort_edges_is_Shuffle : (es : List StackEdge) → Shuffle es (sort_edges es)
unfolding sort_edges
sort_edges_is_Shuffle es = sorted_is_Shuffle edge_le es

sort_edges_by_id :
    (es : List StackEdge) → Pairwise (λ a b. text_le a.edge_id b.edge_id ≡ true) (sort_edges es)
unfolding sort_edges
sort_edges_by_id es = sorted_by (λ (e : StackEdge). e.edge_id) es

module _ (limit : ℕ) (hash : SnapshotPayload → String) where
  -- The snapshot made from the given fields: its graph is theirs in order, and its hash is right.
  pub record Made (given made : StackSnapshot) : Type 0 where
    pub schema : made.schema_version ≡ given.schema_version
    pub organization : made.organization_id ≡ given.organization_id
    pub same_version : made.version ≡ given.version
    pub positive : 1 ≤ made.version
    pub in_order : made.nodes ≡ sort_nodes given.nodes
    pub edges_in_order : made.edges ≡ sort_edges given.edges
    pub same_nodes : Shuffle given.nodes made.nodes
    pub nodes_by_id : Pairwise (λ a b. text_le a.node_id b.node_id ≡ true) made.nodes
    pub same_edges : Shuffle given.edges made.edges
    pub edges_by_id : Pairwise (λ a b. text_le a.edge_id b.edge_id ≡ true) made.edges
    pub accepted : validate_graph limit made.nodes made.edges ≡ ok tt
    pub hashed : made.content_hash ≡ hash (snapshot_payload made)

  settle_hash-eq-ok :
      (given computed result : String)
      → settle_hash limit hash given computed ≡ ok result
      → result ≡ computed
  unfolding settle_hash require_hash
  settle_hash-eq-ok given computed result h = ground (arith, eq_iff computed given)

  -- The snapshot with its lists in order, before its hash is settled.
  abbrev placed : StackSnapshot → StackSnapshot
  placed s = record s { nodes = sort_nodes s.nodes; edges = sort_edges s.edges }

  -- Whenever the constructor returns, the snapshot has the fields that were given; its nodes and
  -- edges are those that were given, each as often, in the order of their identifiers; its graph is
  -- accepted, its version positive, and its hash is that of its own payload.
  pub make_snapshot-Made : (s t : StackSnapshot) → make_snapshot limit hash s ≡ ok t → Made s t
  unfolding make_snapshot snapshot_payload
  make_snapshot-Made s t h =
      let computed = hash (snapshot_payload (placed s)) in
      let settled = settle_hash-eq-ok s.content_hash computed in
      let nodes : sort_nodes s.nodes ≡ t.nodes = ground arith in
      let edges : sort_edges s.edges ≡ t.edges = ground arith in
      record {
        schema = ground arith;
        organization = ground arith;
        same_version = ground arith;
        positive = ground arith;
        in_order = sym nodes;
        edges_in_order = sym edges;
        same_nodes = subst (Shuffle s.nodes) nodes (sort_nodes_is_Shuffle s.nodes);
        nodes_by_id =
            subst (Pairwise (λ a b. text_le a.node_id b.node_id ≡ true)) nodes
              (sort_nodes_by_id s.nodes);
        same_edges = subst (Shuffle s.edges) edges (sort_edges_is_Shuffle s.edges);
        edges_by_id =
            subst (Pairwise (λ a b. text_le a.edge_id b.edge_id ≡ true)) edges
              (sort_edges_by_id s.edges);
        accepted = ground arith;
        hashed = ground (arith, settled t.content_hash);
      }
