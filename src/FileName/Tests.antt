-- ===== src/FileName/Tests.antt =====
-- include/KFileName.h, src/KFileName.cpp: paths that the code is run on, and the theorems at them.
use kangle.Prelude.{none, some, [], ◌++◌, ◌≡◌, if◌then◌else◌, refl, Bytes, codes}
use kangle.FileName.{join_dirs, joined, trip_dir3, trip_dir, concat_dir}
use kangle.FileName.Segments.{segments, resolve}
use kangle.FileName.Resolve.{path_of, trail, trip_dir3-resolve}
use kangle.FileName.Agree.{climbs, trip_dir-kept}
use kangle.FileName.Names.{AllNames, with_slash, below, concat_dir-AllNames}

abbrev up_and_down : Bytes
up_and_down = codes "/a/./b//../../../c.d/"

trip_dir3-up_and_down : trip_dir3 b'/' up_and_down ≡ codes "/c.d/"
unfolding trip_dir3
trip_dir3-up_and_down = refl

trip_dir3_relative : trip_dir3 b'/' (codes "a\\b/..\\c") ≡ codes "a/c"
unfolding trip_dir3
trip_dir3_relative = refl

trip_dir_inside : trip_dir (codes "/a/./b//../c/") ≡ some (codes "a/c")
unfolding trip_dir joined
trip_dir_inside = refl

trip_dir_outside : trip_dir (codes "a/../../etc") ≡ none
unfolding trip_dir joined
trip_dir_outside = refl

concat_dir_outside : concat_dir (codes "/www") (codes "/../../etc/passwd") ≡ codes "/www/etc/passwd"
unfolding concat_dir
concat_dir_outside = refl

trip_dir3-resolve_example :
    trip_dir3 b'/' up_and_down
    ≡ path_of b'/' (resolve (segments up_and_down) []) ++ trail b'/' up_and_down
trip_dir3-resolve_example = trip_dir3-resolve b'/' up_and_down refl refl

concat_dir-AllNames_example :
    AllNames (resolve (segments (codes "a/../../etc/x")) [])
    × (concat_dir (codes "/www") (codes "a/../../etc/x")
        ≡ with_slash (codes "/www")
          ++ below (resolve (segments (codes "a/../../etc/x")) []) (codes "a/../../etc/x"))
concat_dir-AllNames_example = concat_dir-AllNames (codes "/www") (codes "a/../../etc/x")

trip_dir-kept_example : trip_dir up_and_down ≡ (
    if climbs (segments up_and_down) 0
    then none
    else some (join_dirs (resolve (segments up_and_down) [])))
trip_dir-kept_example = trip_dir-kept up_and_down
