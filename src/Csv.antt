-- ===== src/Csv.antt =====
-- src/nvidia/csvio.rs: the reader and the writer of CSV text. A text is the list of its characters.
pub mod Reader
pub mod Writer
pub mod RoundTrip
mod Tests
