-- ===== src/NodeRef/Tests.antt =====
-- The theorem on node references at a concrete input.
use flow_arrow.Prelude.{◌≡◌, refl, [], ◌∷◌, codes}
use flow_arrow.NodeRef.{format_static_node_ref, parse_static_node_ref}
use flow_arrow.NodeRef.RoundTrip.{parse-format_static_node_ref}

parse-format_static_node_ref_example :
    parse_static_node_ref (format_static_node_ref (codes "m.f") (codes "g" ∷ codes "h2" ∷ []))
    ≡ record { base = codes "m.f"; args = codes "g" ∷ codes "h2" ∷ [] }
parse-format_static_node_ref_example =
    parse-format_static_node_ref (codes "m.f") (codes "g" ∷ codes "h2" ∷ [])
      (refl, (refl, (refl, tt))) ((refl, tt), ((refl, (refl, tt)), tt))
