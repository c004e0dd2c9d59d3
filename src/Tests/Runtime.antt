-- ===== src/Tests/Runtime.antt =====
-- The properties of the endpoints, at concrete inputs.
use openmso_api.Prelude.{Option, none, ◌≡◌, refl, List, [], ◌∷◌, Str, codes}
use openmso_api.Failure.{ok, IoError}
use openmso_api.Prelude.Paths.{Dir, private_dir, join}
use openmso_api.Prelude.Utf8.{lossy}
use openmso_api.Transport.Endpoints.{Endpoints, create, create_loop, new_endpoints, hex4}
use openmso_api.Transport.Endpoints.Creation.{Private, new_endpoints-Private}

-- A system that refuses no directory, and the runtime directory.
abbrev willing : Str → Option IoError
willing path = none

abbrev base : Str
base = codes "/run/openmso"

abbrev made : Endpoints
made = record {
  control = codes "ipc:///run/openmso/0008/ctl";
  events = codes "ipc:///run/openmso/0008/evt";
  dir = codes "/run/openmso/0008";
}

-- The first tag is taken, and the second is free.
abbrev one_taken : List Dir
one_taken = private_dir (codes "/run/openmso/0007") ∷ []

creates :
    new_endpoints willing base (ok tt) 7 one_taken ≡ (private_dir made.dir ∷ one_taken, ok made)
unfolding new_endpoints create_loop create join hex4 lossy
creates = refl

new_endpoints-Private_example : Private one_taken (private_dir made.dir ∷ one_taken) made
new_endpoints-Private_example =
    new_endpoints-Private willing base (ok tt) 7 one_taken (private_dir made.dir ∷ one_taken)
      creates
