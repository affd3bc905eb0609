-- ===== src/Audio.antt =====
-- The audio editor plugin (plugins/llm_audio_editor_plugin.cpp): the edit commands that it reads from
-- the text of a language model.
pub mod Json
pub mod Process
pub mod Filters
pub mod Edit
pub mod Pool
pub mod Node
pub mod Tally
pub mod Shares
pub mod Work
pub mod Keeps
pub mod Trace
pub mod Answers
pub mod DryRun
pub mod DryNode
pub mod Results
pub mod Waits
pub mod Returns
pub mod Chain
pub mod Commands
pub mod Braces
pub mod Positions
pub mod Ends
