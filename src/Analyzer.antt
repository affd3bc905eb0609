-- ===== src/Analyzer.antt =====
-- LlmTextAnalyzerNode (plugins/llm_text_analyzer_plugin.cpp).
pub mod Text
pub mod Escape
pub mod Http
pub mod Connection
pub mod Resources
pub mod Releases
pub mod Chunks
pub mod Reply
pub mod Settings
pub mod Session
pub mod Files
pub mod Workers
pub mod Node
pub mod Totals
pub mod Tally
pub mod Shares
pub mod Traced
pub mod Placed
pub mod Results
