-- ===== src/World/Calls.antt =====
-- How calls of the system compose: what a chain holds when it fails, and how one that succeeds went.
use openmso_api.Prelude.Paths.{Dir}
use openmso_api.Prelude.{ℕ, true, false, Bool, List, ◌∷◌, ◌≡◌, ◌⊎◌, inl, inr, refl, arith, ap, ◌∙◌}
use openmso_api.Failure.{Outcome, ok, err, panic, stuck}
use openmso_api.World.{
  World, Io, System, Call, pure, or_drop, followed, dropped, ◌>>=◌, ◌>>◌, nng_call, io_call,
}

-- What is given back by drops.
pub record Held : Type 0 where
  pub sockets : List ℕ
  pub dirs : List Dir
  pub children : List ℕ

abbrev pub held : World → Held
held w = record { sockets = w.sockets; dirs = w.dirs; children = w.children }

pub same_held :
    {s s' : List ℕ} {d d' : List Dir} {c c' : List ℕ}
    → s ≡ s'
    → d ≡ d'
    → c ≡ c'
    → ◌≡◌ {A = Held}
        (record { sockets = s; dirs = d; children = c })
        (record { sockets = s'; dirs = d'; children = c' })
same_held es ed ec = rw (es, ed, ec) refl

abbrev pub is_ok {ℓ} : {A : Type ℓ} → Outcome A → Bool
is_ok (ok _) = true
is_ok _ = false

-- Code that never changes what is held, and code that does so only when it succeeds.
abbrev pub Neutral : {A : Type 0} → Io A → Type 0
Neutral m = (w : World) → held (m w).0 ≡ held w

abbrev pub Tidy : {A : Type 0} → Io A → Type 0
Tidy m = (w : World) → is_ok (m w).1 ≡ false → held (m w).0 ≡ held w

held-followed :
    {A B : Type 0} (r : World × Outcome A) (f : A → Io B) {h : Held}
    → held r.0 ≡ h
    → ((a : A) → r.1 ≡ ok a → held (f a r.0).0 ≡ h)
    → held (followed r f).0 ≡ h
held-followed (w, ok a) f e k = k a refl
held-followed (w, err _) f e k = e
held-followed (w, panic) f e k = e
held-followed (w, stuck) f e k = e

pub Neutral->> :
    {B : Type 0} (m : Io (Unit {0})) (k : Io B) → Neutral m → Neutral k → Neutral (m >> k)
Neutral->> m k hm hk w = held-followed (m w) (λ _. k) (hm w) (λ _ _. hk (m w).0 ∙ hm w)

followed_tidy :
    {A B : Type 0} (r : World × Outcome A) (f : A → Io B) {h : Held}
    → (is_ok r.1 ≡ false → held r.0 ≡ h)
    → ((a : A) → r ≡ (r.0, ok a) → is_ok (f a r.0).1 ≡ false → held (f a r.0).0 ≡ h)
    → is_ok (followed r f).1 ≡ false
    → held (followed r f).0 ≡ h
followed_tidy (w, ok a) f e k fails = k a refl fails
followed_tidy (w, err _) f e k fails = e refl
followed_tidy (w, panic) f e k fails = e refl
followed_tidy (w, stuck) f e k fails = e refl

pub Tidy->> : {B : Type 0} (m : Io (Unit {0})) (k : Io B) → Neutral m → Tidy k → Tidy (m >> k)
Tidy->> m k hm hk w =
    followed_tidy (m w) (λ _. k) (λ _. hm w) (λ _ _ fails. hk (m w).0 fails ∙ hm w)

pub Tidy->>= :
    {A B : Type 0} (m : Io A) (k : A → Io B) → Neutral m → ((a : A) → Tidy (k a)) → Tidy (m >>= k)
Tidy->>= m k hm hk w = followed_tidy (m w) k (λ _. hm w) (λ a _ fails. hk a (m w).0 fails ∙ hm w)

pub dropped_fails :
    {A : Type 0} (drop : World → World) (r : World × Outcome A)
    → is_ok (dropped drop r).1 ≡ false
    → ((dropped drop r).0 ≡ drop r.0) × (is_ok r.1 ≡ false)
dropped_fails drop r fails = ground arith

pub followed_fails :
    {A B : Type 0} (r : World × Outcome A) (f : A → Io B)
    → is_ok r.1 ≡ false
    → (followed r f).0 ≡ r.0
followed_fails r f fails = ground arith

pub outcome-cases {ℓ} : {A : Type ℓ} (o : Outcome A) → ((a : A) × (o ≡ ok a)) ⊎ (is_ok o ≡ false)
outcome-cases (ok a) = inl (a, refl)
outcome-cases (err _) = inr refl
outcome-cases panic = inr refl
outcome-cases stuck = inr refl

-- What is taken by `m`, and given back by `drop`, in a scope that is left early.
pub Tidy-or_drop :
    {A B : Type 0} (m : Io A) (drop : A → World → World) (k : A → Io B)
    → Tidy m
    → ((a : A) (w w' u : World) → m w ≡ (w', ok a) → held u ≡ held w' → held (drop a u) ≡ held w)
    → ((a : A) → Tidy (k a))
    → Tidy (m >>= λ a. or_drop (drop a) (k a))
Tidy-or_drop m drop k hm hd hk w =
    followed_tidy (m w) (λ a. or_drop (drop a) (k a)) (hm w)
      λ a taken fails.
        let (same, failed) = dropped_fails (drop a) (k a (m w).0) fails in
        ap held same ∙ hd a w (m w).0 (k a (m w).0).0 taken (hk a (m w).0 failed)

followed-eq-ok :
    {A B : Type 0} (r : World × Outcome A) (f : A → Io B) {w' : World} {b : B}
    → followed r f ≡ (w', ok b)
    → (a : A) × (r ≡ (r.0, ok a)) × (f a r.0 ≡ (w', ok b))
followed-eq-ok (w, ok a) f h = (a, refl, h)
followed-eq-ok (w, err _) f h = cc
followed-eq-ok (w, panic) f h = cc
followed-eq-ok (w, stuck) f h = cc

-- A chain that succeeds went through its first call.
pub >>=-eq-ok :
    {A B : Type 0} (m : Io A) (f : A → Io B) (w : World) {w' : World} {b : B}
    → (m >>= f) w ≡ (w', ok b)
    → (a : A) × (u : World) × (m w ≡ (u, ok a)) × (f a u ≡ (w', ok b))
>>=-eq-ok m f w h = let (a, first, rest) = followed-eq-ok (m w) f h in (a, (m w).0, first, rest)

pub or_drop-eq-ok :
    {A : Type 0} (drop : World → World) (m : Io A) (w : World) {w' : World} {a : A}
    → or_drop drop m w ≡ (w', ok a)
    → m w ≡ (w', ok a)
or_drop-eq-ok drop m w h = ground arith

pub pure-eq-ok :
    {A : Type 0} (a : A) (w : World) {w' : World} {b : A}
    → pure a w ≡ (w', ok b)
    → (b ≡ a) × (w' ≡ w)
pure-eq-ok a w h = ground arith

module _ (sys : System) where
  pub nng_call-Neutral : (c : Call) → Neutral (nng_call sys c)
  nng_call-Neutral c w = ground arith

  pub nng_call-eq-ok :
      (c : Call) (w : World) {w' : World}
      → nng_call sys c w ≡ (w', ok tt)
      → w' ≡ record w { calls = c ∷ w.calls }
  nng_call-eq-ok c w h = ground arith

  pub io_call-Neutral : (c : Call) → Neutral (io_call sys c)
  io_call-Neutral c w = ground arith

  pub io_call-eq-ok :
      (c : Call) (w : World) {w' : World}
      → io_call sys c w ≡ (w', ok tt)
      → w' ≡ record w { calls = c ∷ w.calls }
  io_call-eq-ok c w h = ground arith
