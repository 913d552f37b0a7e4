-- ===== src/Manifests/State.antt =====
-- The state of the registry: the manifest store, the blob store and what leads to CIDs.
use ipdr.Prelude.{Bool, true, false, none, some, Bytes, Map, empty, insert, if◌then◌else◌}
use ipdr.Http.{Outcome, blocked, map_state}
use ipdr.Site.{Site}
use ipdr.Blobs.{Blobs}

pub record Manifest : Type 0 where
  pub content_type : Bytes
  pub blob : Bytes
  pub digest : Bytes

-- repo → tag or digest → manifest; `lock` says that the mutex is held.
pub record Manifests : Type 0 where
  pub manifests : Map (Map Manifest)
  pub lock : Bool

abbrev pub no_manifests : Manifests
no_manifests = record { manifests = empty; lock = false }

-- `type registry struct`
pub record Registry : Type 0 where
  pub blobs : Blobs
  pub manifests : Manifests
  pub site : Site

abbrev pub release : Registry → Registry
release r = record r { manifests = record r.manifests { lock = false } }

-- m.lock.Lock(); defer m.lock.Unlock(). A body that waits for ever keeps the lock.
abbrev unlock : Outcome Registry → Outcome Registry
unlock (blocked r) = blocked r
unlock o = map_state release o

abbrev pub with_lock : Registry → (Registry → Outcome Registry) → Outcome Registry
with_lock r body =
    if r.manifests.lock
    then blocked r
    else unlock (body (record r { manifests = record r.manifests { lock = true } }))

-- m.manifests[repo], a nil map being an empty one
abbrev pub manifests_of : Registry → Bytes → Map Manifest
manifests_of r repo = elim (r.manifests.manifests repo) [ none ↦ empty | some m ↦ m ]

-- if _, ok := m.manifests[repo]; !ok { m.manifests[repo] = map[string]*manifest{} }
abbrev pub ensure : Bytes → Registry → Registry
ensure repo r = record r {
  manifests = record r.manifests {
    manifests = insert repo (manifests_of r repo) r.manifests.manifests;
  };
}

-- m.manifests[repo][ref] = mf, where the inner map is there
abbrev pub keep : Bytes → Bytes → Manifest → Registry → Registry
keep repo ref mf r = record r {
  manifests = record r.manifests {
    manifests = insert repo (insert ref mf (manifests_of r repo)) r.manifests.manifests;
  };
}
