-- ===== src/Lib.antt =====
-- Verification of the core of function-kubecore-schema-registry: the traversal engine with its scope
-- filter, batches, caches and tracker, the graph of discovered resources with its searches, the
-- expressions that select resources, and the transformations of label values.
--
-- The program. The traversal engine (pkg/traversal) follows the references of Kubernetes resources
-- level by level. It filters references by their scope, remembers in a `ResourceTracker` what it has
-- processed, keeps resources in a cache, can put resources into batches, and hands resources and
-- references to the graph builder (pkg/graph), which makes nodes and edges and validates the graph.
-- The graph is searched for cycles and for paths. A resolver (pkg/discovery) selects resources by
-- expressions over their fields. The label processor (pkg/labels) computes label values and passes
-- them through chains of transformations.
--
-- The modules.
--   Base                     shared names, Boolean tests, Go maps as association lists, `int`, texts
--   Graph/Types              pkg/graph/types.go: the records of a graph and of its validation
--   Graph/Walks              walks along the adjacency list, and closed walks
--   Graph/Builder/Keys       pkg/graph/builder.go: generateNodeID, generateEdgeID, target keys
--   Graph/Builder/Defs       NewGraph, AddNode, AddEdge
--   Graph/Builder/Build      BuildGraph
--   Graph/Builder/Merge      MergeGraphs; MergedNodes and Merged: it keeps graphs well-formed
--   Graph/Builder/Validate   ValidateGraph with its four parts
--   Graph/Builder/WellFormed the predicate that ValidateGraph decides; Preserve, PreserveEdges and
--                            Built: the operations keep it; Unlinked: the key of a reference's target
--   Graph/Cycles/HasCycle    pkg/graph/cycle_detector.go: HasCycle, dfsHasCycle; Visited,
--                            Search and Decides: their proof; Detect: DetectCycles, with Chain and
--                            Sound: the cycles that it reports
--   Graph/Traverser/AllPaths pkg/graph/traverser.go: FindAllPaths, findAllPathsDFS; Simple: the simple
--                            paths; Explore and Exact: the search finds them; Shortest: the best one
--   Graph/Traverser/Visits   pkg/graph/traverser.go: the strategy, the result, the visit of a node;
--                            Reached: what a traversal lists
--   Graph/Traverser/DepthFirst
--                            pkg/graph/traverser.go: DepthFirstTraversal, dfsVisit; Reached: its proof
--   Graph/Traverser/BreadthFirst
--                            pkg/graph/traverser.go: BreadthFirstTraversal, ForwardTraversal; Pending:
--                            what may still enter the queue; Returns: it returns
--   Traversal/Engine         pkg/traversal/engine.go: executeForwardTraversal, addReferencesToGraph;
--                            Discover: DiscoverReferencedResources; Execute:
--                            ExecuteTransitiveDiscovery and ValidateTraversalResult; Linked, Inv,
--                            Forward and Results: what a traversal keeps and returns; Stuck: no place
--                            for a goroutine
--   Traversal/Filter         pkg/traversal/scope_filter.go: Platform, the platform checker, and Scope,
--                            the filter; Patterns, PlatformOnly, Included and Statistics: its laws
--   Traversal/Batches        pkg/traversal/batch_optimizer.go: OptimizeBatches; Split, Partition and
--                            Optimize: its batches; Process and Processed: ProcessBatch
--   Traversal/Cache/Entry    pkg/traversal/cache.go: CacheEntry, CacheStats
--   Traversal/Cache/Lru      LRUCache; Inv: its map and its list agree; Recency: the specification;
--                            Refines and SetRefines: Get and Set implement it; Calls: sequences of
--                            calls; RoundTrip: Get behind Set; Endless: negative capacities
--   Traversal/Cache/Ttl      TTLCache; Order, Cleanup and Crossing: its count of entries
--   Traversal/Tracker        pkg/traversal/resource_tracker.go; Inv and Indexed: its indexes; Calls:
--                            sequences
--   Discovery/Expressions    pkg/discovery/resolver/expression.go: expressions over fields; Selects and
--                            Compiled: what they select
--   Labels/Config            input/v1beta1/xr_labels.go: the configuration of a transformation
--   Labels/Transform         pkg/labels/transforms.go; Values: the label values of Kubernetes;
--                            Outcomes and Hashed: what Transform and TransformChain return
--   Tests                    runs on small inputs, and the theorems at inputs that meet their
--                            hypotheses
--
-- How the models correspond to the code. A method is a function from the state of its receiver to the
-- state that it leaves and its results. A pointer to a record that only one map holds is the record.
-- Elements of container/list are told apart by addresses, which `Set` takes from a counter. A
-- dereference of nil is `none`; the parts of a configuration, which the program sets, are not nil. A
-- method that holds its mutex throughout is one step; `TTLCache.Get`
-- is two, since it changes locks in between. The goroutines of DiscoverReferencedResources write
-- under one mutex: they are taken one after the other, in an order that is an argument of the engine.
-- Another says how their calls of the filter met, which they share without a lock: apart, or with some
-- statistics left behind, or with the end of the program. `time.Now()` is an argument. An
-- iteration over a Go map is one over its list, whose order the theorems leave open. A Go `int` is an
-- integer without a bound, of type ℤ where it can be negative: what it holds here are lengths, depths
-- and counts. A Go string is a native string where it is a key, and a list of characters where these
-- are read. Confidences, floats in the code, are numbers of hundredths.
--
-- Interfaces. The resolver of references, the platform checker, the cycle detector and the scheduler of
-- the goroutines are arguments of the engine, the platform checker is one of the filter, and the processor is one of ProcessBatch. What
-- fmt prints for a field, strconv.Atoi and regexp.Compile are arguments of the expressions, and the
-- depth that a resource has in an annotation is one of OptimizeBatches.
--
-- Fuel. `has_cycle` runs on as many rounds as there are nodes and edges; each round of the recursion
-- visits a node that was not visited before, so the fuel is enough on a well-formed graph. The loop
-- of evictions in `Set` runs on an argument; two rounds are enough on a cache within its capacity.
-- The loops over slices of OptimizeBatches run on an argument; as many rounds as there are resources
-- are enough for a positive batch size. The traversals of the engine, of FindAllPaths and of
-- DepthFirstTraversal are bounded by their maximal depth. The queue of BreadthFirstTraversal runs on
-- one round for each root node and each listed edge, and one more, which is enough for every graph.
--
-- Not modelled. Timestamps of the graph, texts of errors and log messages, the hit rate of the caches,
-- times and metrics; the goroutines that call Cleanup, which is modelled; ProcessBatches, which runs
-- ProcessBatch in goroutines behind sort.Slice; case mapping and digests, which are parameters of the
-- transformations; the strongly connected components; ReverseTraversal,
-- TopologicalSort and ShortestPath of traverser.go; the sorting and the limits of the expression
-- resolver, whose lists come from the Kubernetes API; and the other packages and files, among them the path tracker of pkg/graph,
-- the default resolver of references, pkg/dynamic, pkg/registry and the gRPC function itself.
pub mod Base
pub mod Graph
pub mod Traversal
pub mod Labels
pub mod Discovery
mod Tests
