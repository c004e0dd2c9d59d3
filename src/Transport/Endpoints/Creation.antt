-- ===== src/Transport/Endpoints/Creation.antt =====
-- What `Endpoints::new` makes when it succeeds, and what the drop of it leaves.
use openmso_api.Prelude.{
  ℕ, zero, suc, ◌+◌, ◌≤◌, arith, true, false, Option, List, [], ◌∷◌, ◌++◌, ◌≡◌, ◌∙◌, refl, ap, inl,
  inr, sym,
}
use openmso_api.Prelude.{bit_and, Str, codes, bytes_eq_iff, length, Bool-cases}
use openmso_api.Prelude.Paths.{Dir, private_dir, join}
use openmso_api.Prelude.Utf8.{lossy}
use openmso_api.Failure.{IoError, Outcome, ok, err, protocol, no_free_directory}
use openmso_api.Transport.Endpoints.{
  Endpoints, Made, check_sun_path, member, is_taken, make_dir, endpoints_in, create_dir, create,
  create_loop, new_endpoints, drop_endpoints,
}

-- What `Endpoints::new` promises of the directory that it made.
pub record Private (dirs dirs' : List Dir) (e : Endpoints) : Type 0 where
  pub fresh : member e.dir dirs ≡ false
  pub made : dirs' ≡ private_dir e.dir ∷ dirs
  pub control : e.control ≡ codes "ipc://" ++ lossy (join e.dir (codes "ctl"))
  pub events : e.events ≡ codes "ipc://" ++ lossy (join e.dir (codes "evt"))
  pub short : length (join e.dir (codes "ctl")) ≤ 103

module _ (refused : Str → Option IoError) (base : Str) (prepared : Outcome (Unit {0})) where
  create_taken :
      (tag : ℕ) (dirs : List Dir)
      → is_taken (create refused base prepared tag dirs).1 ≡ true
      → (create refused base prepared tag dirs).0 ≡ dirs
  unfolding create create_dir make_dir endpoints_in check_sun_path
  create_taken tag dirs h = ground arith

  create_made :
      (tag : ℕ) (dirs dirs' : List Dir) {e : Endpoints}
      → create refused base prepared tag dirs ≡ (dirs', ok e)
      → Private dirs dirs' e
  unfolding create create_dir make_dir endpoints_in check_sun_path
  create_made tag dirs dirs' h = record {
    fresh = ground arith;
    made = ground arith;
    control = ground arith;
    events = ground arith;
    short = ground arith;
  }

  pub loop_skip :
      (tries tag : ℕ) (dirs : List Dir)
      → is_taken (create refused base prepared tag dirs).1 ≡ true
      → create_loop refused base prepared (suc tries) tag dirs
        ≡ create_loop refused base prepared tries (bit_and (tag + 1) 0xffff) dirs
  unfolding create_loop
  loop_skip tries tag dirs h = rw (h, create_taken tag dirs h) refl

  pub loop_stop :
      (tries tag : ℕ) (dirs : List Dir)
      → is_taken (create refused base prepared tag dirs).1 ≡ false
      → create_loop refused base prepared (suc tries) tag dirs
        ≡ create refused base prepared tag dirs
  unfolding create_loop
  loop_stop tries tag dirs h = rw h refl

  loop_made :
      (tries tag : ℕ) (dirs dirs' : List Dir) {e : Endpoints}
      → create_loop refused base prepared tries tag dirs ≡ (dirs', ok e)
      → Private dirs dirs' e
  loop_made zero tag dirs dirs' {e} h =
      let over : ◌≡◌ {A = Made Endpoints} (dirs, err (protocol no_free_directory)) (dirs', ok e) =
        unfold create_loop in h in
      cc
  loop_made (suc tries) tag dirs dirs' h =
      elim (Bool-cases (is_taken (create refused base prepared tag dirs).1)) [
        | inl taken ↦
            loop_made tries (bit_and (tag + 1) 0xffff) dirs dirs'
              (sym (loop_skip tries tag dirs taken) ∙ h)
        | inr free ↦ create_made tag dirs dirs' (sym (loop_stop tries tag dirs free) ∙ h)
      ]

  -- When `Endpoints::new` succeeds, it has made one directory that did not stand there before, with the
  -- mode 0o700, the two URLs are `ipc://` and what the paths of `ctl` and `evt` in it print as, and the
  -- path of `ctl` is at most 103 bytes long.
  pub new_endpoints-Private :
      (entropy : ℕ) (dirs dirs' : List Dir) {e : Endpoints}
      → new_endpoints refused base prepared entropy dirs ≡ (dirs', ok e)
      → Private dirs dirs' e
  unfolding new_endpoints
  new_endpoints-Private entropy dirs dirs' h = loop_made 64 (bit_and entropy 0xffff) dirs dirs' h

drop_absent :
    (e : Endpoints) (dirs : List Dir) → member e.dir dirs ≡ false → drop_endpoints e dirs ≡ dirs
unfolding drop_endpoints
drop_absent e [] h = refl
drop_absent e (d ∷ dirs) h =
    ground (arith, bytes_eq_iff d.path e.dir, bytes_eq_iff e.dir d.path, drop_absent e dirs)

pub drop_made :
    (e : Endpoints) (dirs : List Dir)
    → member e.dir dirs ≡ false
    → drop_endpoints e (private_dir e.dir ∷ dirs) ≡ dirs
unfolding drop_endpoints
drop_made e dirs h = rw ((bytes_eq_iff e.dir e.dir).1 refl) (drop_absent e dirs h)

module _ (refused : Str → Option IoError) (base : Str) (prepared : Outcome (Unit {0})) where
  -- When `Endpoints::new` succeeds, the drop of what it returned leaves the directories that stood
  -- there before, and no others.
  pub drop-new_endpoints :
      (entropy : ℕ) (dirs dirs' : List Dir) {e : Endpoints}
      → new_endpoints refused base prepared entropy dirs ≡ (dirs', ok e)
      → drop_endpoints e dirs' ≡ dirs
  drop-new_endpoints entropy dirs dirs' {e} h =
      let made = new_endpoints-Private refused base prepared entropy dirs dirs' h in
      ap (drop_endpoints e) made.made ∙ drop_made e dirs made.fresh
