-- ===== src/Markdown.antt =====
-- web/src/components/MarkdownRenderer.tsx: fenced code, tables and the line blocks of a chat reply.
pub mod Rows
pub mod Blocks
pub mod Fences
pub mod Inline
pub mod Copied
