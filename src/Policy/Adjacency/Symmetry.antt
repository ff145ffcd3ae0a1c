-- ===== src/Policy/Adjacency/Symmetry.antt =====
-- internal/policy/incidents.go: the camera graph has every edge in both directions.
use curtilage.Prelude.{
  ◌≡◌, refl, sym, ap, ◌∙◌, Bool, true, false, ◌&&◌, ◌||◌, List, [], ◌∷◌, Option, none, some, Text,
  ◌==◌, eq_text, contains, if◌then◌else◌, arith, text_eq_iff, Bool-cases, inl, inr,
}
use curtilage.Prelude.Map.{Map, get, put, get-put}
use curtilage.Policy.Adjacency.{edge, edges, closure, adjoins}

adjoins-put :
    (a x y : Text) (bs : List Text) (graph : Map Text (List Text))
    → adjoins (put a bs graph) x y ≡ (if a == x then contains bs y else adjoins graph x y)
unfolding adjoins
adjoins-put a x y bs graph = elim (Bool-cases (a == x)) [
  | inl t ↦ rw (adjoins, get-put a x bs graph, t) refl
  | inr f ↦ rw (adjoins, get-put a x bs graph, f) refl
]

adjoins-get :
    (a x y : Text) (graph : Map Text (List Text)) (found : Option (List Text))
    → get a graph ≡ found
    → (a == x) ≡ true
    → adjoins graph x y ≡ (elim found [ none ↦ false | some bs ↦ contains bs y ])
unfolding adjoins
adjoins-get a x y graph found e t =
    let at_x : get x graph ≡ found = ap (λ z. get z graph) (sym ((text_eq_iff a x).0 t)) ∙ e in
    rw (adjoins, at_x) refl

edge-get :
    (a b : Text) (graph : Map Text (List Text)) (found : Option (List Text))
    → get a graph ≡ found
    → edge a b graph ≡ put a (b ∷ (elim found [ none ↦ [] | some bs ↦ bs ])) graph
unfolding edge
edge-get a b graph none e = rw (edge, e) refl
edge-get a b graph (some bs) e = rw (edge, e) refl

adjoins-edge-found :
    (a b x y : Text) (graph : Map Text (List Text)) (found : Option (List Text))
    → get a graph ≡ found
    → adjoins (edge a b graph) x y ≡ (((a == x) && (b == y)) || adjoins graph x y)
adjoins-edge-found a b x y graph none e =
    rw (edge-get a b graph none e)
      (ground (arith, adjoins-put a x y (b ∷ []) graph, adjoins-get a x y graph none e))
adjoins-edge-found a b x y graph (some bs) e =
    rw (edge-get a b graph (some bs) e)
      (ground (arith, adjoins-put a x y (b ∷ bs) graph, adjoins-get a x y graph (some bs) e))

adjoins-edge :
    (a b x y : Text) (graph : Map Text (List Text))
    → adjoins (edge a b graph) x y ≡ (((a == x) && (b == y)) || adjoins graph x y)
adjoins-edge a b x y graph = adjoins-edge-found a b x y graph _ refl

-- The edges of the cameras `ns` beside `cam`, in both directions.
abbrev pub links : Text → List Text → Text → Text → Bool
links cam ns x y = ((cam == x) && contains ns y) || ((cam == y) && contains ns x)

adjoins-edges :
    (cam x y : Text) (ns : List Text) (graph : Map Text (List Text))
    → adjoins (edges cam ns graph) x y ≡ (links cam ns x y || adjoins graph x y)
unfolding edges
adjoins-edges cam x y [] graph = ground arith
adjoins-edges cam x y (n ∷ ns) graph = ground (
  arith,
  adjoins-edges cam x y ns (edge n cam (edge cam n graph)),
  adjoins-edge n cam x y (edge cam n graph),
  adjoins-edge cam n x y graph,
)

-- Whether the configuration names the two cameras beside each other, either way round.
unfoldable pub configured : Map Text (List Text) → Text → Text → Bool
configured [] x y = false
configured ((cam, ns) ∷ adjacent) x y = links cam ns x y || configured adjacent x y

-- Two cameras adjoin in the graph exactly when the configuration names one of them beside the
-- other, whichever way round it is written, or they did in the graph that the closure began with.
pub adjoins-closure :
    (x y : Text) (adjacent graph : Map Text (List Text))
    → adjoins (closure adjacent graph) x y ≡ (configured adjacent x y || adjoins graph x y)
unfolding closure configured
adjoins-closure x y [] graph = refl
adjoins-closure x y ((cam, ns) ∷ adjacent) graph =
    ground
      (arith, adjoins-closure x y adjacent (edges cam ns graph), adjoins-edges cam x y ns graph)
