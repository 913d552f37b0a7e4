-- ===== src/Blobs.antt =====
-- server/registry/blobs.go: the blob store and its handler.
pub mod Path
pub mod Store
pub mod Handle
pub use Path.{Target}
unfoldable pub use Path.{elements, is_blob_of, is_blob, target_of, blob_target, at_end, slice?}
pub use Store.{Blobs, no_blobs, with_lock, upload_of, push, release}
unfoldable pub use Store.{get, remove, collect_layers, remove_all}
unfoldable pub use Handle.{
  head, get_blob, post_whole, post_start, patch_range, patch_stream, put_upload, serve, handle_at,
  handle,
}
