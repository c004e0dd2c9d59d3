-- ===== src/Transport/Endpoints/Tags.antt =====
-- Which of its tags `Endpoints::new` takes.
use openmso_api.Prelude.{
  ℕ, zero, suc, ◌+◌, ◌-◌, ◌<◌, arith, true, false, Option, none, List, [], ◌∷◌, ◌++◌, ◌≡◌, ◌∙◌,
  refl, ap, inl, inr,
}
use openmso_api.Prelude.{if◌then◌else◌, leb, bit_and, Str, codes, length, All, Bool-cases}
use openmso_api.Prelude.Paths.{Dir, private_dir, join}
use openmso_api.Prelude.Utf8.{lossy}
use openmso_api.Failure.{IoError, ok, err, protocol, no_free_directory, path_too_long}
use openmso_api.Transport.Endpoints.{
  Endpoints, hex4, check_sun_path, member, is_taken, make_dir, endpoints_in, create_dir, create,
  create_loop, new_endpoints,
}
use openmso_api.Transport.Endpoints.Creation.{loop_skip, loop_stop}

-- The tags that the loop tries, and the one behind them.
abbrev pub tags : ℕ → ℕ → List ℕ
tags zero tag = []
tags (suc k) tag = tag ∷ tags k (bit_and (tag + 1) 0xffff)

abbrev pub tag_after : ℕ → ℕ → ℕ
tag_after zero tag = tag
tag_after (suc k) tag = tag_after k (bit_and (tag + 1) 0xffff)

module _ (refused : Str → Option IoError) (base : Str)
    (free : (dir : Str) → refused dir ≡ none) where
  abbrev place : ℕ → Str
  place tag = join base (hex4 tag)

  taken_tag :
      (tag : ℕ) (dirs : List Dir)
      → member (place tag) dirs ≡ true
      → is_taken (create refused base (ok tt) tag dirs).1 ≡ true
  unfolding create create_dir make_dir
  taken_tag tag dirs h = rw h refl

  skip_taken :
      (k tries tag : ℕ) (dirs : List Dir)
      → All (λ t. member (place t) dirs ≡ true) (tags k tag)
      → create_loop refused base (ok tt) (k + tries) tag dirs
        ≡ create_loop refused base (ok tt) tries (tag_after k tag) dirs
  skip_taken zero tries tag dirs h =
      ap (λ n. create_loop refused base (ok tt) n tag dirs) (omega arith)
  skip_taken (suc k) tries tag dirs (h, hs) =
      ap (λ n. create_loop refused base (ok tt) n tag dirs) (omega arith)
      ∙ loop_skip refused base (ok tt) (k + tries) tag dirs (taken_tag tag dirs h)
      ∙ skip_taken k tries (bit_and (tag + 1) 0xffff) dirs hs

  abbrev endpoints_at : Str → Endpoints
  endpoints_at dir = record {
    control = codes "ipc://" ++ lossy (join dir (codes "ctl"));
    events = codes "ipc://" ++ lossy (join dir (codes "evt"));
    dir = dir;
  }

  free_tag :
      (tag : ℕ) (dirs : List Dir)
      → let dir : Str = place tag in
        let path : Str = join dir (codes "ctl") in
        member dir dirs ≡ false
        → (is_taken (create refused base (ok tt) tag dirs).1 ≡ false)
          × (create refused base (ok tt) tag dirs ≡ (
            private_dir dir ∷ dirs,
            if leb (length path) 103
                then ok (endpoints_at dir)
                else err (protocol (path_too_long (length path) (lossy path))),
          ))
  unfolding create create_dir make_dir endpoints_in check_sun_path
  free_tag tag dirs h = elim (Bool-cases (leb (length (join (place tag) (codes "ctl"))) 103)) [
    | inl short ↦ (rw (h, free (place tag), short) refl, rw (h, free (place tag), short) refl)
    | inr long ↦ (rw (h, free (place tag), long) refl, rw (h, free (place tag), long) refl)
  ]

  -- Where the base directory is there and the system refuses no new one, `Endpoints::new` makes the
  -- directory of the first of its 64 tags that does not stand there. It succeeds when the path of
  -- the control socket is at most 103 bytes long, and otherwise fails and leaves the new directory
  -- behind.
  pub new_endpoints_first :
      (entropy k : ℕ) (dirs : List Dir)
      → let tag : ℕ = bit_and entropy 0xffff in
        let dir : Str = join base (hex4 (tag_after k tag)) in
        let path : Str = join dir (codes "ctl") in
        k < 64
        → All (λ t. member (join base (hex4 t)) dirs ≡ true) (tags k tag)
        → member dir dirs ≡ false
        → new_endpoints refused base (ok tt) entropy dirs ≡ (
          private_dir dir ∷ dirs,
          if leb (length path) 103
              then ok (record {
                control = codes "ipc://" ++ lossy path;
                events = codes "ipc://" ++ lossy (join dir (codes "evt"));
                dir = dir;
              })
              else err (protocol (path_too_long (length path) (lossy path))),
        )
  unfolding new_endpoints
  new_endpoints_first entropy k dirs h taken fresh =
      let tag : ℕ = bit_and entropy 0xffff in
      let (stops, made) = free_tag (tag_after k tag) dirs fresh in
      ap (λ n. create_loop refused base (ok tt) n tag dirs)
        (let e : 64 ≡ k + suc (63 - k) = omega arith in e)
      ∙ skip_taken k (suc (63 - k)) tag dirs taken
      ∙ loop_stop refused base (ok tt) (63 - k) (tag_after k tag) dirs stops
      ∙ made

  -- Where the base directory is there and the system refuses no new one, but the directories of all
  -- 64 tags stand there already, `Endpoints::new` fails and makes none.
  pub new_endpoints_exhausted :
      (entropy : ℕ) (dirs : List Dir)
      → All (λ t. member (join base (hex4 t)) dirs ≡ true) (tags 64 (bit_and entropy 0xffff))
      → new_endpoints refused base (ok tt) entropy dirs ≡ (dirs, err (protocol no_free_directory))
  unfolding new_endpoints create_loop
  new_endpoints_exhausted entropy dirs taken = skip_taken 64 0 (bit_and entropy 0xffff) dirs taken
