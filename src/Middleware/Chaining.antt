-- ===== src/Middleware/Chaining.antt =====
-- The order in which Chain nests its middlewares.
use go_microservice.Prelude.{zero, suc, ℕ, ◌≡◌, refl, List, [], ◌∷◌, ap, ◌∙◌, length}
use go_microservice.Http.{Handler}
use go_microservice.Middleware.{Middleware, chain_loop, apply_at, chain}

module _ {W : Type 0} where
  -- the first middleware of the list is the outermost
  abbrev pub nest : List (Middleware W) → Handler W → Handler W
  nest [] final = final
  nest (m ∷ ms) final = m (nest ms final)

  chain_loop-cons :
      (m : Middleware W) (ms : List (Middleware W)) (i : ℕ) (final : Handler W)
      → chain_loop (m ∷ ms) (suc i) final ≡ m (chain_loop ms i final)
  unfolding chain_loop
  chain_loop-cons m ms zero final = refl
  chain_loop-cons m ms (suc i) final = chain_loop-cons m ms i (apply_at ms i final)

  -- Chain, which walks its arguments from the last to the first, nests them so that the first one
  -- is the outermost.
  pub chain-eq-nest :
      (ms : List (Middleware W)) (final : Handler W) → chain ms final ≡ nest ms final
  unfolding chain
  chain-eq-nest [] final = refl
  chain-eq-nest (m ∷ ms) final =
      chain_loop-cons m ms (length ms) final ∙ ap m (chain-eq-nest ms final)
