-- ===== src/Store/Exec/Parallel.antt =====
-- `parallel` where every body does one thing that cannot fail.
use nft_tracker.Prelude.{ℕ, ◌+◌, ◌≡◌, refl, false, List, [], ◌∷◌, arith}
use nft_tracker.Store.World.{World}
use nft_tracker.Store.Exec.{ok, pure, modify, parallel, run_all, attempt, ◌>>=◌, ◌>>◌}

module _ {A : Type 0} (g : A → World → World) where
  unfoldable pub each : List A → World → World
  each [] w = w
  each (x ∷ xs) w = each xs (g x w)

  run_all-modify :
      (xs : List A) (count : ℕ) (w : World)
      → run_all (λ x. modify (g x) >> pure 0) xs false count w ≡ (ok count, each xs w)
  unfolding run_all attempt each ◌>>=◌
  run_all-modify [] count w = refl
  run_all-modify (x ∷ xs) count w =
      let same : count + 0 ≡ count = omega arith in rw same (run_all-modify xs count (g x w))

  pub parallel-modify :
      (xs : List A) (w : World) → parallel xs (λ x. modify (g x) >> pure 0) w ≡ (ok 0, each xs w)
  unfolding parallel
  parallel-modify xs w = run_all-modify xs 0 w

  pub each-keeps :
      (P : World → Type 0)
      → ((x : A) (w : World) → P w → P (g x w))
      → (xs : List A) (w : World) → P w
      → P (each xs w)
  unfolding each
  each-keeps P keep [] w h = h
  each-keeps P keep (x ∷ xs) w h = each-keeps P keep xs (g x w) (keep x w h)
