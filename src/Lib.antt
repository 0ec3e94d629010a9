-- ===== src/Lib.antt =====
-- TopoForge-AI turns a drawing or a description of a network into a network architecture, has
-- it translated into a cloud architecture, generates Terraform and Ansible projects from that,
-- and deploys them behind an approval. This library models the parts of the program that
-- decide: what a claim about the network is worth, how subnets lie to each other, what a
-- validator's report says, when a document may go on, what route a workflow takes, and what an
-- approval permits.
--
-- The files, and the code that each is about:
--
-- - Prelude, with its children Tests, Lists, Sets, Quantifiers, Largest, Equality, Errors, Text
--   and Sort: what the components share. Comparisons that answer a Bool, lists and the
--   membership tests of Python's `in`, duplicates, predicates on every item and every pair of a
--   list, the largest item by a key, equality as an interface, a result type for code that
--   raises, texts as code points with their order, and a stable sort.
-- - Value: the values of Python that are checked at run time only, with the operations on them
--   that the workflow uses and the exceptions that these raise (`get` on a value that is no
--   dictionary, iteration over a value that cannot be iterated, a set of unhashable values).
-- - Workflow.State: src/infrastructure/orchestration/langgraph/state.py. The state of a
--   workflow is a dictionary; `initial_state` builds the first one or raises.
-- - Workflow.Routing: src/infrastructure/orchestration/langgraph/routing.py, each routing
--   function under its name. Its children state when each answers what (Decisions, Generation,
--   Clarification, Words, Start).
-- - Workflow.Spec: src/infrastructure/orchestration/langgraph/spec.py, the graph as data with
--   its methods. Search is the loop of `reaches`, Reachability relates it to walks, Neighbours
--   has what follows, and Pipeline is the graph GRAPH_SPEC.
-- - Workflow.Run: runs of the pipeline as an inductive type. The builder that hands the graph
--   to LangGraph is not in the repository, so which routing function serves which node is a
--   parameter, and the theorems assume it only where they use it. The state may change in any
--   way between two nodes. Gate, Gates and Labels have the theorems on runs.
-- - Provenance: src/domain/common/provenance.py, evidence and its priority and
--   `merge_evidence`; Merge has the laws.
-- - Issues: src/domain/architecture/issues.py, findings, reports and gaps; Report has the laws.
-- - Network: src/domain/network/models.py, subnets and host addresses as numbers, and
--   interfaces; Blocks is about how subnets lie to each other, Hosts about the number of
--   addresses that can be given to hosts.
-- - Topology: src/domain/topology/models.py, devices and links; Adjacency is about the
--   adjacency lists, Components about the search for connected components (Flood is one search,
--   Partition the loop), Duplicates about links between the same two devices.
-- - Architecture: src/domain/architecture/models.py, the document that goes to the RAG;
--   Integrity is about the check at its construction, Gate about the gate before the RAG,
--   History about revisions, Links about the document as a topology.
-- - Deployment: src/domain/deployment/models.py, plans and approvals; Stages is the state of a
--   deployment, Checksum what the digest of a plan tells apart, Progress the counts and the
--   progress view.
-- - Cloud: src/domain/cloud/models.py, the cloud architecture; Resources and Hosts are its
--   infrastructure (resources.py) and its configuration (configuration.py), Integrity is about
--   the check at its construction. Cloud.Validators is src/domain/cloud/validators.py with a
--   child for each validator and Suite for the suite; Cloud.Sound has, in children of the same
--   names, when each of them reports no error (that of Exposure is in Routes; Addresses is
--   about the addresses of a subnet, Dictionary about the dictionary of addresses that the
--   placement validator fills).
-- - Assembler: src/infrastructure/rag/cloud_assembler.py. Representation is what a component
--   becomes by the words of the plan, Segments are the broadcast domains
--   (`_discover_segments`), Domains the routed domains (`_discover_domains`), Supernet the
--   range of a network (`_covering_supernet`), Networks the networks with their subnets,
--   Gateways the gateways and the check of the transport, Routes the route tables.
--   Supernet.Wider, Supernet.Least and Supernet.Covering are about the range, Domains.Partition
--   about the segments of a router, Networks.Within about the subnets of a network,
--   Routes.Anchored about where the gateways stand, and Routes.Targets and Routes.Served about
--   the route tables.
-- - NodeTypes: src/domain/topology/node_types.py, the mapping of a detector's class names to
--   types of devices; Mapping is about its answers.
-- - Identifiers: src/domain/common/identifiers.py, `slugify`; Slugs is about its answers.
-- - Generation: src/domain/generation/models.py, warnings, generated files and the Terraform
--   project.
-- - Terraform: src/infrastructure/generators/terraform. Hcl is hcl.py: values, blocks and
--   documents; Hcl.Render writes them as text, with Keys about the keys of mappings and a
--   reader of them (which characters HCL allows in an identifier is a parameter there), and
--   Hcl.Escape is the escaping of quoted literals with a reader of them. Mapping is
--   mappings/aws.py: the context with the identifiers and references, and in its children the
--   mappers of each class of resources (Data has databases and load balancers). Addresses is
--   the index of addresses and the order of emission in generator.py, Generator its answer and
--   its files. Closure is about the references in the generated blocks: Emissions puts mappers
--   together, Network, Gateways, Compute and Data go through their blocks, Declared is what a
--   mapper declares, Known what an expression may name, Index the addresses, Whole what is
--   declared in all, and Complete the references in all. Generator.Accepts is about when a
--   project is answered, Generator.Secrets about passwords.
-- - Yaml: src/infrastructure/generators/ansible/yaml_writer.py, YAML for Ansible. Scalars has a
--   reader of texts in double quotes, Numbers is about the texts that look like numbers, Plain
--   about the texts without quotes, Reading has a reader of both. Which type YAML gives to a
--   text without quotes is not modelled.
-- - Tests: the theorems at concrete inputs, and tests.
--
-- The parts meet in the workflow: the dictionaries that the routing functions read are the
-- reports, architectures and approvals that the other parts make, and the approval gate of the
-- workflow is the one that the deployment's `authorises` guards a second time.
--
-- Bounds. `reaches` is a loop over a work list and runs on fuel: one step for each entry of the
-- work list and for each edge behind a node that is not yet seen. `connected_components` gives
-- each search as much fuel as the topology has ids, since each id is queued at most once. Every
-- other loop is a recursion on the list or the text that it goes through. Numbers are natural
-- numbers; a confidence, which is a float between 0 and 1 in the program, is a number of equal
-- steps of which 1000 are full confidence, since only the order of confidences is used. SHA-256
-- is a parameter, and what is assumed of it is written in each theorem. The reader of addresses
-- of the standard library, `ip_address`, is a parameter of the placement validator, of which
-- nothing is assumed. The loop of `_covering_supernet` runs on the prefix length that it counts
-- down, and stops where the program stops, at the prefix 0. The assembler has as parameters
-- what the standard library does: `str.strip` followed by `str.lower`, the text of a subnet,
-- and the text of the plan as JSON. The YAML writer has as parameters `str.lower`, `str.strip`
-- and the digits of a regular expression; what is assumed of them is written in the theorem.
-- The Terraform generator has as parameters `str.strip`, `str.lower`, `str.isalpha`,
-- `str.isalnum`, the text of an address range and the text of README.md; a mapper answers what
-- it appends to the context, since none reads what another appended. Decimal digits are written
-- with as much fuel as the number itself, which is more than it has digits. Routes are compared
-- as pairs of an address and a prefix, where the program compares the canonical text of the
-- two.
--
-- Not modelled: input and output, the bodies of the workflow's nodes (not in the repository),
-- the calls of models, the OCR text parsers, geometry (float arithmetic), the messages of the
-- validators and of the assembler, what the assembler makes of the plan for instances, security
-- groups and the configuration, the routing models, the sentences of the generators' warnings,
-- the Ansible and inventory generators, and the shortest paths of a topology.
pub mod Prelude
pub mod Value
pub mod Architecture
pub mod Assembler
pub mod Cloud
pub mod Deployment
pub mod Generation
pub mod Identifiers
pub mod Issues
pub mod Network
pub mod NodeTypes
pub mod Provenance
pub mod Terraform
pub mod Topology
pub mod Workflow
pub mod Yaml
pub mod Tests
