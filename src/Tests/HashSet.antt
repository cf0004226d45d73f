-- ===== src/Tests/HashSet.antt =====
-- Examples for src/Tracing/Runtime/edge_hash_set.h: tables that grow.
use bracelet.Prelude.{◌^◌, ◌<◌, ◌≡◌, refl, List, [], ◌∷◌, arith}
use bracelet.Tracing.HashSet.{TraceEdge, edge_epoch, empty_table}
use bracelet.Tests.Tracing.{edge}

abbrev other : TraceEdge
other = record { trace_site = 4200; value = 78 }

other_is_even : edge_epoch other ≡ 0
unfolding edge_epoch
other_is_even = refl

pub new_is_small : (empty_table 4).edge_count < 2 ^ 61
unfolding empty_table
new_is_small = omega arith

abbrev four_edges : List TraceEdge
four_edges = edge ∷ other ∷ edge ∷ record { trace_site = 4204; value = 5 } ∷ []
