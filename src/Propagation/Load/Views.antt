-- ===== src/Propagation/Load/Views.antt =====
-- What holds of every registry that `load` of engines/propagation_engine.py has read.
use socio_workspace.Base.{
  ◌≡◌, inl, inr, refl, ap, Bool, true, false, Option, none, some, List, [], ◌∷◌, String,
  if◌then◌else◌, Bool-cases, All,
}
use socio_workspace.Propagation.Graph.{
  Graph, Agrees, empty_graph, add_edge, join, join-Agrees, normalize_repo_id, RawEdge, empty-Agrees,
}
use socio_workspace.Propagation.Load.{
  PackEdge, Pack, Dep, Entry, Registry, load_edges, is_in_use, pack_dependencies, pack_references,
  is_reference, load_packs, load_depends_on, load_dependents, load_entry, load_dependencies, load,
}

module _ (normalize lower : String → String) where
  load_edges-Agrees :
      (edges : List (Option RawEdge)) (g : Graph)
      → Agrees g
      → Agrees (load_edges normalize lower edges g)
  unfolding load_edges add_edge
  load_edges-Agrees [] g v = v
  load_edges-Agrees (none ∷ edges) g v = load_edges-Agrees edges g v
  load_edges-Agrees (some e ∷ edges) g v =
      load_edges-Agrees edges (add_edge normalize e.src e.dst e.edge_type g) (
        join-Agrees e.edge_type (normalize_repo_id normalize e.src)
          (normalize_repo_id normalize e.dst) g v)

  if-Agrees : (b : Bool) (g h : Graph) → Agrees g → Agrees h → Agrees (if b then g else h)
  if-Agrees true g h v w = v
  if-Agrees false g h v w = w

  pack_dependencies-Agrees :
      (edges : List (Option PackEdge)) (g : Graph)
      → Agrees g
      → Agrees (pack_dependencies normalize lower edges g)
  unfolding pack_dependencies add_edge
  pack_dependencies-Agrees [] g v = v
  pack_dependencies-Agrees (none ∷ edges) g v = pack_dependencies-Agrees edges g v
  pack_dependencies-Agrees (some e ∷ edges) g v =
      let src = normalize_repo_id normalize e.src in
      let dst = normalize_repo_id normalize e.dst in
      pack_dependencies-Agrees edges _ (
        if-Agrees (is_in_use normalize lower e) (add_edge normalize src dst e.edge_type g) g
          (join-Agrees e.edge_type (normalize_repo_id normalize src)
            (normalize_repo_id normalize dst) g v)
          v)

  pack_references-Agrees :
      (edges : List (Option PackEdge)) (g : Graph)
      → Agrees g
      → Agrees (pack_references normalize lower edges g)
  unfolding pack_references
  pack_references-Agrees [] g v = v
  pack_references-Agrees (none ∷ edges) g v = pack_references-Agrees edges g v
  pack_references-Agrees (some e ∷ edges) g v =
      let src = normalize_repo_id normalize e.src in
      let dst = normalize_repo_id normalize e.dst in
      pack_references-Agrees edges _ (
        if-Agrees (is_in_use normalize lower e) (join e.edge_type src dst g) g
          (join-Agrees e.edge_type src dst g v) v)

  load_packs-Agrees :
      (packs : List Pack) (g refs : Graph)
      → Agrees g
      → Agrees refs
      → Agrees (load_packs normalize lower packs g refs).0
        × Agrees (load_packs normalize lower packs g refs).1
  unfolding load_packs
  load_packs-Agrees [] g refs v w = (v, w)
  load_packs-Agrees (p ∷ packs) g refs v w =
      let as_reference =
        load_packs-Agrees packs g (pack_references normalize lower p.edges refs) v
          (pack_references-Agrees p.edges refs w) in
      let as_dependency =
        load_packs-Agrees packs (pack_dependencies normalize lower p.edges g) refs
          (pack_dependencies-Agrees p.edges g v) w in
      elim (Bool-cases (is_reference p)) [
        | inl reference ↦ rw reference as_reference
        | inr dependency ↦ rw dependency as_dependency
      ]

  load_depends_on-Agrees :
      (repo : String) (deps : List Dep) (g : Graph)
      → Agrees g
      → Agrees (load_depends_on normalize lower repo deps g)
  unfolding load_depends_on add_edge
  load_depends_on-Agrees repo [] g v = v
  load_depends_on-Agrees repo (d ∷ deps) g v = load_depends_on-Agrees repo deps _ (
      join-Agrees _ (normalize_repo_id normalize (some repo)) (normalize_repo_id normalize d.name) g
        v)

  load_dependents-Agrees :
      (repo : String) (deps : List Dep) (g : Graph)
      → Agrees g
      → Agrees (load_dependents normalize lower repo deps g)
  unfolding load_dependents add_edge
  load_dependents-Agrees repo [] g v = v
  load_dependents-Agrees repo (d ∷ deps) g v = load_dependents-Agrees repo deps _ (
      join-Agrees _ (normalize_repo_id normalize d.name) (normalize_repo_id normalize (some repo)) g
        v)

  load_entry-Agrees :
      (repo : Option String) (entry : Option Entry) (g : Graph)
      → Agrees g
      → Agrees (load_entry normalize lower repo entry g)
  unfolding load_entry
  load_entry-Agrees none entry g v = v
  load_entry-Agrees (some repo) none g v = v
  load_entry-Agrees (some repo) (some entry) g v =
      load_dependents-Agrees repo entry.dependents _
        (load_depends_on-Agrees repo entry.depends_on g v)

  load_dependencies-Agrees :
      (entries : List (String × Option Entry)) (g : Graph)
      → Agrees g
      → Agrees (load_dependencies normalize lower entries g)
  unfolding load_dependencies
  load_dependencies-Agrees [] g v = v
  load_dependencies-Agrees ((name, entry) ∷ entries) g v =
      load_dependencies-Agrees entries _
        (load_entry-Agrees (normalize_repo_id normalize (some name)) entry g v)

  -- For every registry and every way to normalise names, the three views of the dependency graph
  -- agree, and so do those of the reference graph: a repository is listed as another's dependency
  -- exactly if an edge leads from that one to it, and as its dependent exactly if one leads back.
  pub load-Agrees :
      (raw : Registry)
      → Agrees (load normalize lower raw).graph × Agrees (load normalize lower raw).references
  unfolding load
  load-Agrees raw =
      let g = load_edges normalize lower raw.edges empty_graph in
      let (v, w) =
        load_packs-Agrees raw.packs g empty_graph
          (load_edges-Agrees raw.edges empty_graph empty-Agrees) empty-Agrees in
      (load_dependencies-Agrees raw.dependencies _ v, w)

  load_packs-references :
      (packs : List Pack) (g refs : Graph)
      → All (λ p. is_reference p ≡ true) packs
      → (load_packs normalize lower packs g refs).0 ≡ g
  unfolding load_packs
  load_packs-references [] g refs h = refl
  load_packs-references (p ∷ packs) g refs h =
      rw h.0 (load_packs-references packs g (pack_references normalize lower p.edges refs) h.1)

  -- If every pack declares that it creates no runtime dependency, the dependency graph is what it
  -- is without the packs.
  pub load-reference_packs :
      (raw : Registry)
      → All (λ p. is_reference p ≡ true) raw.packs
      → (load normalize lower raw).graph ≡ (load normalize lower (record raw { packs = [] })).graph
  unfolding load load_packs
  load-reference_packs raw h = ap (load_dependencies normalize lower raw.dependencies) (
      load_packs-references raw.packs (load_edges normalize lower raw.edges empty_graph) empty_graph
        h)
