-- ===== src/Assembler.antt =====
-- src/infrastructure/rag/cloud_assembler.py: from the plan of the RAG and a network architecture to a
-- cloud architecture.
pub mod Representation
pub mod Supernet
pub mod Segments
pub mod Domains
pub mod Networks
pub mod Gateways
pub mod Routes
