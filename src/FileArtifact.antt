-- ===== src/FileArtifact.antt =====
-- services/file-artifact/store.py and shared/object_keys.py: the files that sensors carve out of
-- traffic, checked and promoted from the upload namespace of a tenant to the one that is served.
-- Keys has the object keys, Archive the checks of a ZIP archive, Store the operations.
pub mod Keys
pub mod Archive
pub mod Nested
pub mod Store
pub mod Vetted
pub mod Promoted
pub mod Isolated
pub mod Examples
