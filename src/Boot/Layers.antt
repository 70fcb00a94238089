-- ===== src/Boot/Layers.antt =====
-- bootstrap/bootstrap.go: the order of the router.
use fibr.Prelude.{◌≡◌, refl, Bool, true, false, List, [], ◌∷◌, ◌++◌, All}
use fibr.Boot.{
  Layer, Options, new, before_probes, after_probes, mounted, before_layers, livez_route,
  readyz_route, limiter, cors, monitoring, recovers,
}

-- What may turn a request away before the routes behind it.
abbrev pub throttles : Layer → Bool
throttles (limiter n) = true
throttles cors = true
throttles (monitoring path) = true
throttles l = false

abbrev Lets : Layer → Type 0
Lets l = throttles l ≡ false

mounted-All :
    (layers : List (Bool × Layer)) → All (λ l. Lets l.1) layers → All Lets (mounted layers)
mounted-All [] h = tt
mounted-All ((true, layer) ∷ layers) h = (h.0, mounted-All layers h.1)
mounted-All ((false, layer) ∷ layers) h = mounted-All layers h.1

-- Whatever the options, the first layer recovers from panics, and the routes of the probes stand
-- before the rate limiter, CORS and the monitoring handler.
new-router :
    {W : Type 0} (o : Options W)
    → (inner outer : List Layer) × ((new o).router
        ≡ recovers ∷ inner ++ livez_route ∷ readyz_route ∷ outer)
      × All (λ l. throttles l ≡ false) inner
unfolding new before_probes
new-router o = (
  mounted (before_layers o),
  after_probes o,
  refl,
  mounted-All (before_layers o) (refl, (refl, (refl, (refl, (refl, (refl, (refl, (refl, tt)))))))),
)
