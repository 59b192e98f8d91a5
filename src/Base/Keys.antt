-- ===== src/Base/Keys.antt =====
-- Go's maps and sets over comparable keys, as association lists and lists without repetition.
mod Same
mod Sets
mod Maps
unfoldable pub use Same.*
unfoldable pub use Sets.*
unfoldable pub use Maps.*
