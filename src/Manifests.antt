-- ===== src/Manifests.antt =====
-- server/registry/manifest.go: the manifest store and its handler.
pub mod State
pub mod Fetch
pub mod Put
pub mod Handle
pub use State.{Manifest, Manifests, Registry, no_manifests, with_lock, release, manifests_of, keep}
unfoldable pub use Fetch.{get_manifest, fetch, add_digests, get_handler, head_handler}
unfoldable pub use Put.{
  is_index, missing, check_index, publish, finish_put, put_locked, put_handler,
}
unfoldable pub use Handle.{is_manifest, manifest_target, handle}
