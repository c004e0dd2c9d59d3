-- ===== src/Cpp/Endpoints/Agreement.antt =====
-- The C++ constructor of `Endpoints` and `Endpoints::new` of the Rust crate.
use mathlib.Core.List.{append_assoc}
use openmso_api.Prelude.{
  ℕ, zero, suc, ◌+◌, true, false, Option, none, some, ◌⊎◌, List, ◌/◌, ◌%◌, bytes_eq_iff, [], ◌∷◌,
  ◌++◌, ◌≡◌, ◌∙◌, refl, sym, ap, Str, codes, length, leb, ◌==◌, Bool-cases, inl, inr, arith,
  bit_and,
}
use openmso_api.Prelude.Paths.{Dir, private_dir, slash, join}
use openmso_api.Prelude.Utf8.{is_utf8, lossy_same, utf8-append, utf8-ascii}
use openmso_api.Failure.{NngError, IoError, already_exists, other_io, Outcome, ok, err}
use openmso_api.Failure
use openmso_api.Failure.Text.{decimal, error_text, fault_text}
use openmso_api.Transport.Endpoints.{
  Endpoints, Made, is_taken, hex_digit, hex4, member, make_dir, create, create_dir, create_loop,
  endpoints_in,
}
use openmso_api.Transport.Endpoints.Creation.{loop_skip, loop_stop}
use openmso_api.Transport.Endpoints as Rust
use openmso_api.Cpp.Errors.{
  protocol_error, counterpart, as_result, Result, returned, thrown, escaped, stuck,
}
use openmso_api.Cpp.Client.Operations.{blurred}
use openmso_api.Cpp.Endpoints.{
  mkdir, turn, settle, rmdir, check_sun_path, attempts, new_endpoints_in, new_endpoints, prepare,
}
use openmso_api.Transport.Base as RustBase
use openmso_api.Cpp.Endpoints.Base.{
  takes_slash-++, takes_slash-base_dir, AgreeOnBase, base_dir_same,
}
use openmso_api.Cpp.Manifest.Agreement.{takes_slash, join_lem, lossy-join}

hex_digit_lem : (n : ℕ) → (hex_digit n == slash) ≡ false
hex_digit_lem n = ground arith

utf8-hex_digit : (n : ℕ) → is_utf8 (hex_digit (n % 16) ∷ []) ≡ true
utf8-hex_digit n = utf8-ascii (hex_digit (n % 16)) (ground arith)

utf8-hex4 : (tag : ℕ) → is_utf8 (hex4 tag) ≡ true
unfolding hex4
utf8-hex4 tag = utf8-append (hex_digit (tag / 4096 % 16) ∷ []) _ (utf8-hex_digit (tag / 4096)) (
    utf8-append (hex_digit (tag / 256 % 16) ∷ []) _ (utf8-hex_digit (tag / 256)) (
      utf8-append (hex_digit (tag / 16 % 16) ∷ []) _ (utf8-hex_digit (tag / 16))
        (utf8-hex_digit tag)))

-- A component behind a path that is UTF-8.
utf8-under :
    (path part : Str)
    → is_utf8 path ≡ true
    → is_utf8 part ≡ true
    → is_utf8 (path ++ (codes "/" ++ part)) ≡ true
utf8-under path part p q =
    utf8-append path (codes "/" ++ part) p (utf8-append (codes "/") part (utf8-ascii slash refl) q)

takes_slash-hex4 : (base : Str) (tag : ℕ) → takes_slash (base ++ (codes "/" ++ hex4 tag)) ≡ true
unfolding hex4
takes_slash-hex4 base tag =
    takes_slash-++ base slash (hex4 tag) ∙ rw (hex_digit_lem (tag % 16)) refl

-- The directory of a tag, by both.
dir_same :
    (base : Str) (tag : ℕ)
    → takes_slash base ≡ true
    → join base (hex4 tag) ≡ base ++ (codes "/" ++ hex4 tag)
unfolding hex4
dir_same base tag h = join_lem base (hex4 tag) h (hex_digit_lem (tag / 4096 % 16))

rmdir_absent : (dir : Str) (dirs : List Dir) → member dir dirs ≡ false → rmdir dir dirs ≡ dirs
unfolding rmdir
rmdir_absent dir [] h = refl
rmdir_absent dir (d ∷ dirs) h =
    ground (arith, bytes_eq_iff d.path dir, bytes_eq_iff dir d.path, rmdir_absent dir dirs)

rmdir_made :
    (dir : Str) (dirs : List Dir)
    → member dir dirs ≡ false
    → rmdir dir (private_dir dir ∷ dirs) ≡ dirs
unfolding rmdir
rmdir_made dir dirs h = rw ((bytes_eq_iff dir dir).1 refl) (rmdir_absent dir dirs h)

-- The two texts of a path that is too long.
limit_text :
    (size path : Str)
    → size ++ codes " bytes, over the " ++ decimal 103 ++ codes "-byte limit: " ++ path
      ≡ size ++ codes " bytes, over the 103-byte limit: " ++ path
unfolding decimal
limit_text size path =
    ap (λ t. t ++ path)
      (append_assoc (size ++ codes " bytes, over the ") (codes "103") (codes "-byte limit: ")
        ∙ append_assoc size (codes " bytes, over the ") (codes "103-byte limit: "))

module _ (nng_text : NngError → Str) (io_text : IoError → Str) (debug : Str → Str) where
  -- What a constructor shows that starts at the directories `dirs`: the directories it leaves, those
  -- that a failing one made being taken away, and its result.
  abbrev pub tidied : List Dir → Made Endpoints → List Dir × Result Endpoints
  tidied dirs (dirs', ok e) = (dirs', returned e)
  tidied dirs (_, o) = (dirs, blurred (as_result nng_text io_text debug o))

  abbrev pub seen : List Dir × Result Endpoints → List Dir × Result Endpoints
  seen (dirs, r) = (dirs, blurred r)

  check_same :
      (path : Str)
      → is_utf8 path ≡ true
      → check_sun_path path ≡ as_result nng_text io_text debug (Rust.check_sun_path path)
  unfolding check_sun_path Rust.check_sun_path counterpart error_text fault_text
  check_same path u = elim (Bool-cases (leb (length path) 103)) [
    | inl short ↦ rw short refl
    | inr long ↦
        rw (long, lossy_same path u)
          (ap (λ t. thrown (protocol_error t))
            (limit_text (codes "socket path is " ++ decimal (length path)) path))
  ]

  settled_same :
      (dir : Str) (dirs : List Dir)
      → takes_slash dir ≡ true
      → is_utf8 dir ≡ true
      → member dir dirs ≡ false
      → (o : Outcome (Unit {0}))
      → seen (settle dir (private_dir dir ∷ dirs) (as_result nng_text io_text debug o))
        ≡ tidied dirs (private_dir dir ∷ dirs, endpoints_in dir o)
  unfolding settle endpoints_in is_utf8
  settled_same dir dirs t u absent (ok _) =
      let ctl = lossy-join dir (codes "ctl") t refl u refl in
      let evt = lossy-join dir (codes "evt") t refl u refl in
      ap (λ e. (private_dir dir ∷ dirs, returned e))
        (rw (ctl, evt)
          (ap
            (λ t. record {
              control = codes "ipc://" ++ (dir ++ codes "/ctl");
              events = t;
              dir = dir;
            })
            (append_assoc (codes "ipc://") dir (codes "/evt"))))
  settled_same dir dirs t u absent (err x) =
      ap (λ d. (d, blurred (as_result nng_text io_text debug {A = Endpoints} (err x))))
        (rmdir_made dir dirs absent)
  settled_same dir dirs t u absent Failure.panic =
      ap (λ d. (d, escaped)) (rmdir_made dir dirs absent)
  settled_same dir dirs t u absent Failure.stuck = ap (λ d. (d, stuck)) (rmdir_made dir dirs absent)

  module _ (errno_number : IoError → ℕ) (strerror : ℕ → Str) (refused : Str → Option IoError)
      (base : Str) where
    -- What the system answers about a directory.
    Refused-cases :
        (o : Option IoError)
        → (o ≡ none) ⊎ (o ≡ some already_exists) ⊎ ((n : ℕ) × (o ≡ some (other_io n)))
    Refused-cases none = inl refl
    Refused-cases (some already_exists) = inr (inl refl)
    Refused-cases (some (other_io n)) = inr (inr (n, refl))

    untaken : (dir path : Str) → is_taken (endpoints_in dir (Rust.check_sun_path path)) ≡ false
    unfolding endpoints_in Rust.check_sun_path
    untaken dir path = ground arith

    abbrev made : Str → List Dir → Made Endpoints
    made dir dirs = create_dir dir (make_dir refused base (ok tt) dir dirs)

    abbrev turned : Str → List Dir → List Dir × Result Endpoints → List Dir × Result Endpoints
    turned dir dirs next =
        turn errno_number strerror refused base dir dirs
          (mkdir errno_number strerror refused base dir dirs) next

    -- A turn of the C++ loop goes on to the next tag where `Endpoints::new` does, and otherwise
    -- gives what `create` gives.
    turn_same :
        (dir : Str) (dirs : List Dir) (next : List Dir × Result Endpoints)
        → takes_slash dir ≡ true
        → is_utf8 dir ≡ true
        → ((is_taken (made dir dirs).1 ≡ true) × (turned dir dirs next ≡ next))
          ⊎ ((is_taken (made dir dirs).1 ≡ false)
              × (seen (turned dir dirs next) ≡ tidied dirs (made dir dirs)))
    unfolding turn mkdir make_dir create_dir counterpart is_utf8
    turn_same dir dirs next t u = elim (Bool-cases (member dir dirs)) [
      | inl there ↦ inl (rw there refl, rw there refl)
      | inr absent ↦ elim (Refused-cases (refused dir)) [
        | inl free ↦ inr (
          rw (absent, free) (untaken dir (join dir (codes "ctl"))),
          rw (absent, free)
              (ap (λ r. seen (settle dir (private_dir dir ∷ dirs) r))
                  (check_same (dir ++ codes "/ctl") (utf8-under dir (codes "ctl") u refl))
                ∙ settled_same dir dirs t u absent (Rust.check_sun_path (dir ++ codes "/ctl"))
                ∙ ap
                    (λ p.
                      tidied dirs
                        (private_dir dir ∷ dirs, endpoints_in dir (Rust.check_sun_path p)))
                    (sym (join_lem dir (codes "ctl") t refl))),
        )
        | inr (inl taken) ↦ inl (rw (absent, taken) refl, rw (absent, taken) refl)
        | inr (inr (n, failed)) ↦ inr (rw (absent, failed) refl, rw (absent, failed) refl)
      ]
    ]

    create_same :
        takes_slash base ≡ true
        → (tag : ℕ) (dirs : List Dir)
        → create refused base (ok tt) tag dirs ≡ made (base ++ (codes "/" ++ hex4 tag)) dirs
    unfolding create
    create_same h tag dirs = ap (λ dir. made dir dirs) (dir_same base tag h)

    loop_same :
        takes_slash base ≡ true
        → is_utf8 base ≡ true
        → (tries tag : ℕ) (dirs : List Dir)
        → seen (attempts errno_number strerror refused base tries tag dirs)
          ≡ tidied dirs (create_loop refused base (ok tt) tries tag dirs)
    unfolding attempts create_loop counterpart error_text fault_text
    loop_same h u zero tag dirs = refl
    loop_same h u (suc tries) tag dirs =
        let dir = base ++ (codes "/" ++ hex4 tag) in
        let next =
          attempts errno_number strerror refused base tries (bit_and (tag + 1) 0xffff) dirs in
        let same = create_same h tag dirs in
        elim (turn_same dir dirs next (takes_slash-hex4 base tag)
          (utf8-under base (hex4 tag) u (utf8-hex4 tag))) [
            | inl (taken, skip) ↦
                ap seen skip
                ∙ loop_same h u tries (bit_and (tag + 1) 0xffff) dirs
                ∙ ap (tidied dirs) (
                    sym (
                      loop_skip refused base (ok tt) tries tag dirs
                        (ap (λ m. is_taken m.1) same ∙ taken)))
            | inr (free, settled) ↦
                settled
                ∙ ap (tidied dirs) (sym same)
                ∙ ap (tidied dirs) (
                    sym (
                      loop_stop refused base (ok tt) tries tag dirs
                        (ap (λ m. is_taken m.1) same ∙ free)))
          ]

    new_endpoints_in-tidied :
        (mkdir_base : Option IoError) (entropy : ℕ) (dirs : List Dir)
        → (mkdir_base ≡ none) ⊎ (mkdir_base ≡ some already_exists)
        → takes_slash base ≡ true
        → is_utf8 base ≡ true
        → seen (new_endpoints_in errno_number strerror refused base mkdir_base none entropy dirs)
          ≡ tidied dirs (Rust.new_endpoints refused base (ok tt) entropy dirs)
    unfolding new_endpoints_in prepare Rust.new_endpoints
    new_endpoints_in-tidied mkdir_base entropy dirs (inl h) t u =
        rw h (loop_same t u 64 (bit_and entropy 0xffff) dirs)
    new_endpoints_in-tidied mkdir_base entropy dirs (inr h) t u =
        rw h (loop_same t u 64 (bit_and entropy 0xffff) dirs)

  -- Each of the two constructors chooses its base directory from the environment. Where what it is chosen
  -- from is not empty, ends in no slash and is UTF-8, `std::env::temp_dir` gives TMPDIR or /tmp, the base
  -- directory can be made or is there, and its mode can be set, the C++ constructor and
  -- `Endpoints::new` give the same: the same endpoints in the same new directory of the mode 0700, or a
  -- failure of the same kind with, if it is the crate's own, the same text. A C++ constructor that
  -- fails leaves the directories as it found them, where `Endpoints::new` may leave one more.
  pub new_endpoints-tidied :
      (errno_number : IoError → ℕ) (strerror : ℕ → Str) (refused : Str → Option IoError)
      (runtime tmp : Option Str) (temp_dir : Str) (mkdir_base : Option IoError) (entropy : ℕ)
      (dirs : List Dir)
      → (mkdir_base ≡ none) ⊎ (mkdir_base ≡ some already_exists)
      → AgreeOnBase runtime tmp temp_dir
      → is_utf8 (RustBase.base_dir runtime temp_dir) ≡ true
      → seen (new_endpoints errno_number strerror refused runtime tmp mkdir_base none entropy dirs)
        ≡ tidied dirs
            (Rust.new_endpoints refused (RustBase.base_dir runtime temp_dir) (ok tt) entropy dirs)
  unfolding new_endpoints
  new_endpoints-tidied errno_number strerror refused runtime tmp temp_dir mkdir_base entropy dirs m
        same u =
      ap
        (λ base.
          seen (new_endpoints_in errno_number strerror refused base mkdir_base none entropy dirs))
        (base_dir_same runtime tmp temp_dir same)
      ∙ new_endpoints_in-tidied errno_number strerror refused (RustBase.base_dir runtime temp_dir)
          mkdir_base entropy dirs m (takes_slash-base_dir runtime temp_dir) u
