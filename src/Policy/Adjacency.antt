-- ===== src/Policy/Adjacency.antt =====
-- internal/policy/incidents.go: which cameras an actor can move between, as NewIncidents closes the
-- configured edges and reachable asks for them. A set of cameras is a list.
pub mod Symmetry
use curtilage.Prelude.{
  Bool, true, false, not, ◌||◌, List, [], ◌∷◌, Option, none, some, Text, ◌==◌, eq_text, contains,
  any, is_some,
}
use curtilage.Prelude.Map.{Map, get, put}
use curtilage.Policy.Activity.{Incident}

-- The local function `edge` of NewIncidents
unfoldable pub edge : Text → Text → Map Text (List Text) → Map Text (List Text)
edge a b graph = elim (get a graph) [ none ↦ put a (b ∷ []) graph | some bs ↦ put a (b ∷ bs) graph ]

unfoldable pub edges : Text → List Text → Map Text (List Text) → Map Text (List Text)
unfolding edge
edges cam [] graph = graph
edges cam (n ∷ ns) graph = edges cam ns (edge n cam (edge cam n graph))

-- Both directions of every edge that the configuration has.
unfoldable pub closure : Map Text (List Text) → Map Text (List Text) → Map Text (List Text)
unfolding edges
closure [] graph = graph
closure ((cam, ns) ∷ adjacent) graph = closure adjacent (edges cam ns graph)

-- `e.adjacent` as NewIncidents makes it: nil without edges
unfoldable pub graph_of : Map Text (List Text) → Option (Map Text (List Text))
unfolding closure
graph_of [] = none
graph_of (a ∷ adjacent) = some (closure (a ∷ adjacent) [])

unfoldable pub adjoins : Map Text (List Text) → Text → Text → Bool
adjoins graph a b = elim (get a graph) [ none ↦ false | some bs ↦ contains bs b ]

-- reachable
unfoldable pub reachable : Option (Map Text (List Text)) → Text → Incident → Bool
unfolding adjoins
reachable none camera inc = true
reachable (some graph) camera inc =
    not (is_some (get camera graph))
    || any
        (λ m.
          (m.camera == camera)
          || (adjoins graph camera m.camera || not (is_some (get m.camera graph))))
        inc.members
