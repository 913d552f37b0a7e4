-- ===== src/Strings/Laws/Tests.antt =====
-- The model of Go's string functions at inputs whose results the Go documentation gives.
use ipdr.Prelude.{◌≡◌, refl, [], ◌∷◌, codes}
use ipdr.Strings.{
  clean, path_join, split, split_n2, trim_space, to_lower, sort_strings, str_le, trim_right,
}

clean_tests :
    (clean (codes "/a/../../etc//./x") ≡ codes "/etc/x")
    × (clean (codes "") ≡ codes ".")
    × (clean (codes "a/../..") ≡ codes "..")
    × (path_join (codes "v2" ∷ codes "foo/bar" ∷ codes "blobs/uploads" ∷ codes "7" ∷ [])
        ≡ codes "v2/foo/bar/blobs/uploads/7")
unfolding clean path_join
clean_tests = (refl, refl, refl, refl)

split_tests :
    (split (codes "/v2/") b'/' ≡ codes "" ∷ codes "v2" ∷ codes "" ∷ [])
    × (split_n2 (codes "a:b:c") b':' ≡ codes "a" ∷ codes "b:c" ∷ [])
    × (trim_space (codes " ab c  ") ≡ codes "ab c")
    × (trim_right (codes "a//") b'/' ≡ codes "a")
    × (to_lower (codes "AbC-1") ≡ codes "abc-1")
    × (sort_strings (codes "b" ∷ codes "ab" ∷ codes "a" ∷ [])
        ≡ codes "a" ∷ codes "ab" ∷ codes "b" ∷ [])
unfolding split split_n2 trim_space trim_right to_lower sort_strings str_le
split_tests = (refl, refl, refl, refl, refl, refl)
