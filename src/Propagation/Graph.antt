-- ===== src/Propagation/Graph.antt =====
-- `add_edge` of `PropagationEngine.load` in engines/propagation_engine.py, and what the adjacency
-- lists hold after any number of calls. `normalize` stands for Python's `strip`, `replace` and
-- `lower`; a missing name is `none`.
use socio_workspace.Base.{
  ◌≡◌, inl, inr, refl, subst, Bool, true, ◌&&◌, ◌||◌, Option, none, some, List, [], ◌∷◌, ◌++◌,
  String, str_eq, eq_iff, eq_refl, arith, any, if◌then◌else◌, Bool-cases,
}
use socio_workspace.Base.Dict
use socio_workspace.Base.Dict.{Dict, get-put}
use socio_workspace.Propagation.{elem, list_or_empty}

pub record Edge : Type 0 where
  pub from : String
  pub to : String
  pub type_name : String

pub record Graph : Type 0 where
  pub edges : List Edge
  pub adjacency : Dict (List String)
  pub reverse_adjacency : Dict (List String)

abbrev pub empty_graph : Graph
empty_graph = record { edges = []; adjacency = []; reverse_adjacency = [] }

-- `d[k]` of a `defaultdict(list)`, as far as the value goes.
unfoldable pub at : Dict (List String) → String → List String
unfolding list_or_empty
at d k = list_or_empty (Dict.get d k)

-- `if x not in d[k]: d[k].append(x)`
unfoldable pub note : Dict (List String) → String → String → Dict (List String)
unfolding at
note d k x = if elem x (at d k) then d else Dict.put d k (at d k ++ x ∷ [])

unfoldable pub normalize_repo_id : (String → String) → Option String → Option String
normalize_repo_id normalize none = none
normalize_repo_id normalize (some r) =
    let id = normalize r in if str_eq id "" then none else some id

-- The rest of `add_edge`, after the guard on the two normalised names.
unfoldable pub join : String → Option String → Option String → Graph → Graph
unfolding note
join edge_type none to g = g
join edge_type (some from) none g = g
join edge_type (some from) (some to) g = record {
  edges = g.edges ++ record { from = from; to = to; type_name = edge_type } ∷ [];
  adjacency = note g.adjacency from to;
  reverse_adjacency = note g.reverse_adjacency to from;
}

unfoldable pub add_edge : (String → String) → Option String → Option String → String → Graph → Graph
unfolding normalize_repo_id join
add_edge normalize src dst edge_type g =
    join edge_type (normalize_repo_id normalize src) (normalize_repo_id normalize dst) g

pub record RawEdge : Type 0 where
  pub src : Option String
  pub dst : Option String
  pub edge_type : String

-- The calls of `add_edge` in their order.
unfoldable pub add_edges : (String → String) → List RawEdge → Graph → Graph
unfolding add_edge
add_edges normalize [] g = g
add_edges normalize (e ∷ es) g =
    add_edges normalize es (add_edge normalize e.src e.dst e.edge_type g)

abbrev pub joins : String → String → Edge → Bool
joins from to e = str_eq from e.from && str_eq to e.to

elem-snoc : (x y : String) (ys : List String) → elem x (ys ++ y ∷ []) ≡ (elem x ys || str_eq x y)
unfolding elem
elem-snoc x y [] = ground arith
elem-snoc x y (z ∷ ys) = ground (arith, elem-snoc x y ys)

any-snoc : (p : Edge → Bool) (xs : List Edge) (y : Edge) → any p (xs ++ y ∷ []) ≡ (any p xs || p y)
any-snoc p [] y = ground arith
any-snoc p (x ∷ xs) y = ground (arith, any-snoc p xs y)

at-put :
    (d : Dict (List String)) (k j : String) (v : List String)
    → at (Dict.put d k v) j ≡ (if str_eq k j then v else at d j)
unfolding at list_or_empty
at-put d k j v = elim (Bool-cases (str_eq k j)) [
  | inl same ↦ simp (get-put d k j v, same) refl
  | inr other ↦ simp (get-put d k j v, other) refl
]

elem-at :
    (d : Dict (List String)) (k x j y : String)
    → elem x (at d k) ≡ true
    → (str_eq j k && str_eq y x) ≡ true
    → elem y (at d j) ≡ true
elem-at d k x j y h both =
    let same : j ≡ k = ground (arith, both, eq_iff j k) in
    let equal : y ≡ x = ground (arith, both, eq_iff y x) in simp (same, equal) h

elem-note :
    (d : Dict (List String)) (k x j y : String)
    → elem y (at (note d k x) j) ≡ (elem y (at d j) || (str_eq j k && str_eq y x))
unfolding note
elem-note d k x j y = elim (Bool-cases (elem x (at d k))) [
  | inl old ↦ rw old (ground (arith, elem-at d k x j y old))
  | inr new ↦
      rw (new, at-put d k j (at d k ++ x ∷ []))
        (elim (Bool-cases (str_eq k j)) [
          | inl same ↦ rw same (
              subst
                (λ i. elem y (at d k ++ x ∷ []) ≡ (elem y (at d i) || (str_eq i k && str_eq y x)))
                ((eq_iff k j).0 same) (ground (arith, elem-snoc y x (at d k), eq_refl k)))
          | inr other ↦ rw other (ground (arith, other, eq_iff j k, eq_iff k j))
        ])
]

-- The three views of the graph agree.
pub record Agrees (g : Graph) : Type 0 where
  pub forward : (a b : String) → elem b (at g.adjacency a) ≡ any (joins a b) g.edges
  pub backward : (a b : String) → elem a (at g.reverse_adjacency b) ≡ any (joins a b) g.edges

pub join-Agrees :
    (edge_type : String) (from to : Option String) (g : Graph)
    → Agrees g
    → Agrees (join edge_type from to g)
unfolding join
join-Agrees edge_type none to g v = v
join-Agrees edge_type (some from) none g v = v
join-Agrees edge_type (some from) (some to) g v =
    let edge : Edge = record { from = from; to = to; type_name = edge_type } in
    record {
      forward = λ a b. ground (
        arith,
        elem-note g.adjacency from to a b,
        any-snoc (joins a b) g.edges edge,
        v.forward a b,
      );
      backward = λ a b. ground (
        arith,
        elem-note g.reverse_adjacency to from b a,
        any-snoc (joins a b) g.edges edge,
        v.backward a b,
      );
    }

add_edges-keeps :
    (normalize : String → String) (raw : List RawEdge) (g : Graph)
    → Agrees g
    → Agrees (add_edges normalize raw g)
unfolding add_edges add_edge
add_edges-keeps normalize [] g v = v
add_edges-keeps normalize (e ∷ raw) g v =
    add_edges-keeps normalize raw (add_edge normalize e.src e.dst e.edge_type g) (
      join-Agrees e.edge_type (normalize_repo_id normalize e.src)
        (normalize_repo_id normalize e.dst) g v)

pub empty-Agrees : Agrees empty_graph
unfolding elem at Dict.get
empty-Agrees = record { forward = λ a b. refl; backward = λ a b. refl }

-- However edges are added to the empty graph, for every way to normalise names, a repository is
-- among another's dependencies exactly if an edge leads from that one to it, and among the
-- dependents exactly if an edge leads from it to the other.
pub add_edges-Agrees :
    (normalize : String → String) (raw : List RawEdge)
    → Agrees (add_edges normalize raw empty_graph)
add_edges-Agrees normalize raw = add_edges-keeps normalize raw empty_graph empty-Agrees
