-- ===== src/Action.antt =====
-- Calls that change an object and may raise: the state that a raise leaves comes back beside it.
use dlt_matterbeam.Prelude.{◌≡◌, refl}
use dlt_matterbeam.Exec.{Error, Result, ok, err}

abbrev pub Action {ℓ} : Type ℓ → Type ℓ → Type ℓ
Action S A = S → Result A × S

module _ {ℓ} {S A : Type ℓ} where
  abbrev pub pure : A → Action S A
  pure a s = (ok a, s)

  abbrev pub raise : Error → Action S A
  raise e s = (err e, s)

  abbrev pub lift : Result A → Action S A
  lift r s = (r, s)

module _ {ℓ} {S A B : Type ℓ} where
  abbrev pub continue : Result A → (A → Action S B) → Action S B
  continue (ok a) f s = f a s
  continue (err e) f s = (err e, s)

  infixl 10 ◌>>=◌ ◌>>◌
  abbrev pub ◌>>=◌ : Action S A → (A → Action S B) → Action S B
  ◌>>=◌ m f s = continue (m s).0 f (m s).1

  abbrev pub ◌>>◌ : Action S A → Action S B → Action S B
  m >> n = m >>= λ _. n

module _ {ℓ} {S A : Type ℓ} where
  continue-pure : (r : Result A) (s : S) → continue r pure s ≡ (r, s)
  continue-pure (ok a) s = refl
  continue-pure (err e) s = refl

  pub bind-pure : (m : Action S A) (s : S) → (m >>= pure) s ≡ m s
  bind-pure m s = continue-pure (m s).0 (m s).1

module _ {ℓ} {S A B : Type ℓ} where
  continue_congr :
      (r : Result A) (k k' : Action S B) (s : S)
      → k s ≡ k' s
      → continue r (λ _. k) s ≡ continue r (λ _. k') s
  continue_congr (ok a) k k' s h = h
  continue_congr (err e) k k' s h = refl

  -- what follows a call matters in the state that the call leaves
  pub bind_congr :
      (m : Action S A) (k k' : Action S B) (s : S)
      → k (m s).1 ≡ k' (m s).1
      → (m >> k) s ≡ (m >> k') s
  bind_congr m k k' s h = continue_congr (m s).0 k k' (m s).1 h
