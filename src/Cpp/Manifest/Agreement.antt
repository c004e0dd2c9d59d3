-- ===== src/Cpp/Manifest/Agreement.antt =====
-- Where the two implementations of `resolve_argv` agree.
use mathlib.Core.List.{append_assoc, append-nil}
use openmso_api.Prelude.{
  Bool, true, false, not, arith, List, [], ◌∷◌, ◌++◌, map, ◌≡◌, ◌∙◌, refl, sym, ap, ◌==◌, Str,
  codes, All,
}
use openmso_api.Prelude.Utf8.{lossy, is_utf8, lossy_same, utf8-append, utf8-ascii}
use openmso_api.Prelude.Paths.{slash, is_absolute, has_slash, with_slash, join}
use openmso_api.Proto.Manifest.{PluginManifest}
use openmso_api.Manifest
use openmso_api.Cpp.Manifest.{
  finds_slash, ends_with_py, front_is_slash, resolve_token, resolve_loop, resolve_argv,
}

finds_slash_same : (token : Str) → finds_slash token ≡ has_slash token
unfolding finds_slash has_slash
finds_slash_same [] = refl
finds_slash_same (b ∷ bs) = ground (arith, finds_slash_same bs)

ends_with_py_same : (token : Str) → ends_with_py token ≡ Manifest.ends_with_py token
unfolding ends_with_py Manifest.ends_with_py
ends_with_py_same [] = refl
ends_with_py_same (a ∷ []) = ground arith
ends_with_py_same (a ∷ b ∷ []) = ground arith
ends_with_py_same (a ∷ b ∷ c ∷ []) = ground arith
ends_with_py_same (a ∷ b ∷ c ∷ d ∷ bs) =
    let ih = ends_with_py_same (b ∷ c ∷ d ∷ bs) in ground (arith, ih)

front_is_slash_same : (token : Str) → front_is_slash token ≡ is_absolute token
unfolding front_is_slash
front_is_slash_same [] = refl
front_is_slash_same (b ∷ bs) = refl

-- A directory that `Path::join` separates from what it joins by a slash.
abbrev pub takes_slash : Str → Bool
takes_slash [] = false
takes_slash (b ∷ []) = not (b == slash)
takes_slash (b ∷ c ∷ bs) = takes_slash (c ∷ bs)

with_slash_lem : (dir : Str) → takes_slash dir ≡ true → with_slash dir ≡ dir ++ codes "/"
unfolding with_slash
with_slash_lem [] h = cc
with_slash_lem (b ∷ []) h = ground arith
with_slash_lem (b ∷ c ∷ bs) h = ap (λ t. b ∷ t) (with_slash_lem (c ∷ bs) h)

-- A directory that ends in no slash, joined with a token that starts with none.
pub join_lem :
    (dir token : Str)
    → takes_slash dir ≡ true
    → is_absolute token ≡ false
    → join dir token ≡ dir ++ (codes "/" ++ token)
unfolding join
join_lem dir token h absolute =
    rw (absolute, with_slash_lem dir h, append_assoc dir (codes "/") token)

-- What `Path::join` gives of texts that are UTF-8 prints as itself.
pub lossy-join :
    (dir token : Str)
    → takes_slash dir ≡ true
    → is_absolute token ≡ false
    → is_utf8 dir ≡ true
    → is_utf8 token ≡ true
    → lossy (join dir token) ≡ dir ++ (codes "/" ++ token)
lossy-join dir token h absolute d t =
    ap lossy (join_lem dir token h absolute)
    ∙ lossy_same (dir ++ (codes "/" ++ token)) (
        utf8-append dir (codes "/" ++ token) d
          (utf8-append (codes "/") token (utf8-ascii slash refl) t))

resolve_token_same :
    (dir python token : Str)
    → takes_slash dir ≡ true
    → is_utf8 dir ≡ true
    → is_utf8 token ≡ true
    → resolve_token dir python token ≡ Manifest.resolve_token dir python token
unfolding resolve_token Manifest.resolve_token Manifest.looks_like_path
resolve_token_same dir python token h d t = ground (
  arith,
  finds_slash_same token,
  ends_with_py_same token,
  front_is_slash_same token,
  lossy-join dir token h,
)

resolve_loop_lem :
    (dir python : Str)
    → takes_slash dir ≡ true
    → is_utf8 dir ≡ true
    → (run argv : List Str) → All (λ token. is_utf8 token ≡ true) run
    → resolve_loop dir python run argv ≡ argv ++ map (Manifest.resolve_token dir python) run
unfolding resolve_loop
resolve_loop_lem dir python h d [] argv ts = sym (append-nil argv)
resolve_loop_lem dir python h d (token ∷ run) argv (t, ts) =
    resolve_loop_lem dir python h d run (argv ++ resolve_token dir python token ∷ []) ts
    ∙ append_assoc argv (resolve_token dir python token ∷ [])
        (map (Manifest.resolve_token dir python) run)
    ∙ ap (λ t. argv ++ t ∷ map (Manifest.resolve_token dir python) run)
        (resolve_token_same dir python token h d t)

-- For a plugin directory that is not empty and ends in no slash, the C++ library and this crate
-- start a plugin with the same arguments, whatever the interpreter is, where the plugin directory and
-- the words of the manifest's `run` are UTF-8.
pub resolve_argv_same :
    (manifest : PluginManifest)
    → (dir python : Str) → takes_slash dir ≡ true
    → is_utf8 dir ≡ true
    → All (λ token. is_utf8 token ≡ true) manifest.run
    → resolve_argv manifest dir python ≡ Manifest.resolve_argv manifest dir python
unfolding resolve_argv Manifest.resolve_argv
resolve_argv_same manifest dir python h d ts = resolve_loop_lem dir python h d manifest.run [] ts
