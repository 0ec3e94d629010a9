-- ===== src/Workflow/Spec/Pipeline.antt =====
-- The pipeline of src/infrastructure/orchestration/langgraph/spec.py: `GRAPH_SPEC`, with its tables
-- in the order of the source.
use topo_forge_ai.Prelude.{String, true, false, List, [], ◌∷◌}
use topo_forge_ai.Workflow.Spec.{NodeSpec, SubgraphSpec, Branches, GraphSpec}

abbrev pub end_node : String
end_node = "__end__"

abbrev plain : String → String → String → NodeSpec
plain name description subgraph = record {
  name = name;
  description = description;
  subgraph = subgraph;
  interrupt_before = false;
}

abbrev pausing : String → String → String → NodeSpec
pausing name description subgraph = record {
  name = name;
  description = description;
  subgraph = subgraph;
  interrupt_before = true;
}

abbrev pub pipeline_subgraphs : List SubgraphSpec
pipeline_subgraphs =
    record { name = "main"; description = "Input routing and terminal states" }
    ∷ record { name = "image_extraction"; description = "Image to topology" }
    ∷ record { name = "prompt_architecture"; description = "Prompt to topology" }
    ∷ record {
      name = "network_enrichment";
      description = "Completeness, clarification, enrichment, validation";
    }
    ∷ record {
      name = "rag_translation";
      description = "Network architecture to cloud architecture";
    }
    ∷ record { name = "generation"; description = "Cloud architecture to Terraform and Ansible" }
    ∷ record { name = "deployment"; description = "Review, plan, approval, apply, configure" }
    ∷ []

abbrev pub pipeline_nodes : List NodeSpec
pipeline_nodes =
    plain "detect_input_mode" "Choose the image or prompt path" "main"
    ∷ plain "preprocess_image" "Normalise the image without destroying detail" "image_extraction"
    ∷ plain "detect_components" "YOLO component detection" "image_extraction"
    ∷ plain "extract_text" "OCR" "image_extraction"
    ∷ plain "detect_connections" "Connector/edge detection" "image_extraction"
    ∷ plain "spatial_association" "Bind text and endpoints to components" "image_extraction"
    ∷ plain "build_topology_from_image" "Reconstruct the graph" "image_extraction"
    ∷ plain "prompt_llm" "Structured generation from a description" "prompt_architecture"
    ∷ plain "build_topology_from_prompt" "Reconstruct the graph" "prompt_architecture"
    ∷ plain "analyze_completeness" "Find gaps and enrichment opportunities" "network_enrichment"
    ∷ pausing "await_clarification" "Pause and ask the user" "network_enrichment"
    ∷ plain "enrich_network" "Apply answers and enrichment" "network_enrichment"
    ∷ plain "validate_network" "Run the network validators" "network_enrichment"
    ∷ plain "finalise_network_architecture" "Emit network_architecture.json" "network_enrichment"
    ∷ plain "rag_translate" "Translate to a cloud architecture. The RAG ends here."
        "rag_translation"
    ∷ plain "validate_cloud_architecture" "Run the cloud validators" "rag_translation"
    ∷ plain "generate_terraform" "Deterministic Terraform generation" "generation"
    ∷ plain "validate_terraform" "fmt / init / validate" "generation"
    ∷ plain "generate_ansible" "Deterministic Ansible generation" "generation"
    ∷ plain "validate_ansible" "Syntax check and lint" "generation"
    ∷ plain "deployment_review" "Collect artifacts and validation results" "deployment"
    ∷ plain "terraform_plan" "Produce a reviewable plan. Mutates nothing." "deployment"
    ∷ pausing "await_approval" "Pause for an explicit human decision" "deployment"
    ∷ plain "terraform_apply" "Apply an approved plan" "deployment"
    ∷ plain "collect_outputs" "Read real deployment outputs" "deployment"
    ∷ plain "generate_inventory" "Build the inventory from those outputs" "deployment"
    ∷ plain "run_configuration" "Configure the deployed hosts" "deployment"
    ∷ plain "complete" "Finished" "main"
    ∷ plain "rejected" "The user rejected the plan" "main"
    ∷ plain "failed" "The workflow failed" "main"
    ∷ []

abbrev pub pipeline_edges : List (String × String)
pipeline_edges =
    ("preprocess_image", "detect_components")
    ∷ ("detect_components", "extract_text")
    ∷ ("extract_text", "detect_connections")
    ∷ ("detect_connections", "spatial_association")
    ∷ ("spatial_association", "build_topology_from_image")
    ∷ ("build_topology_from_image", "analyze_completeness")
    ∷ ("prompt_llm", "build_topology_from_prompt")
    ∷ ("build_topology_from_prompt", "analyze_completeness")
    ∷ ("await_clarification", "enrich_network")
    ∷ ("enrich_network", "validate_network")
    ∷ ("finalise_network_architecture", "rag_translate")
    ∷ ("rag_translate", "validate_cloud_architecture")
    ∷ ("generate_terraform", "validate_terraform")
    ∷ ("generate_ansible", "validate_ansible")
    ∷ ("deployment_review", "terraform_plan")
    ∷ ("terraform_plan", "await_approval")
    ∷ ("terraform_apply", "collect_outputs")
    ∷ ("collect_outputs", "generate_inventory")
    ∷ ("generate_inventory", "run_configuration")
    ∷ ("run_configuration", "complete")
    ∷ ("complete", end_node)
    ∷ ("rejected", end_node)
    ∷ ("failed", end_node)
    ∷ []

abbrev pub pipeline_branches : List (String × Branches)
pipeline_branches =
    (
      "detect_input_mode",
      ("image", "preprocess_image") ∷ ("prompt", "prompt_llm") ∷ ("fail", "failed") ∷ [],
    )
    ∷ (
      "analyze_completeness",
      ("clarify", "await_clarification") ∷ ("enrich", "enrich_network") ∷ ("fail", "failed") ∷ [],
    )
    ∷ (
      "validate_network",
      ("translate", "finalise_network_architecture")
          ∷ ("clarify", "await_clarification")
          ∷ ("invalid", "failed")
          ∷ [],
    )
    ∷ (
      "validate_cloud_architecture",
      ("generate", "generate_terraform") ∷ ("invalid", "failed") ∷ [],
    )
    ∷ ("validate_terraform", ("ansible", "generate_ansible") ∷ ("skip", "deployment_review") ∷ [])
    ∷ ("validate_ansible", ("review", "deployment_review") ∷ ("invalid", "failed") ∷ [])
    ∷ ("await_approval", ("apply", "terraform_apply") ∷ ("reject", "rejected") ∷ [])
    ∷ (
      "collect_outputs",
      ("configure", "generate_inventory") ∷ ("complete", "complete") ∷ ("fail", "failed") ∷ [],
    )
    ∷ []

abbrev pub graph_spec : GraphSpec
graph_spec = record {
  nodes = pipeline_nodes;
  edges = pipeline_edges;
  conditional_edges = pipeline_branches;
  subgraphs = pipeline_subgraphs;
  entry_point = "detect_input_mode";
}
