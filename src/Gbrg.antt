-- ===== src/Gbrg.antt =====
-- gbrg/governance and gbrg/mcp: the gate that admits cells to a review context, the ledger of its
-- decisions, and the chained events of the MCP surface.
pub mod Gate
pub mod Ledger
