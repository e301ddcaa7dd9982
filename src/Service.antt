-- ===== src/Service.antt =====
-- src/service.rs: services, middleware and the pipeline. A service handles a request in a world `W`,
-- which stands for all that it reads and changes; `Q` is a request and `R` the outcome of one.
use navar.Base.{List, [], ◌∷◌, ◌++◌, ◌≡◌, refl, sym, ap, ◌∙◌}

abbrev pub Service : Type 0 → Type 0 → Type 0 → Type 0
Service W Q R = Q → W → R × W

module _ (W Q R : Type 0) where
  -- Anything that is a `Middleware`: one that the user wrote, or a pair `(M1, M2)`.
  pub data Middleware : Type 0 where
    layer : (Service W Q R → Service W Q R) → Middleware
    pair : Middleware → Middleware → Middleware

  -- Anything that is an `IntoService`: a service, or a pair `(M, S)`.
  pub data IntoService : Type 0 where
    service : Service W Q R → IntoService
    wrapped : Middleware → Service W Q R → IntoService

  pub record Pipeline : Type 0 where
    pub handler : Service W Q R

module _ {W Q R : Type 0} where
  unfoldable pub wrap : Middleware W Q R → Service W Q R → Service W Q R
  wrap (layer f) next = f next
  wrap (pair m₁ m₂) next = wrap m₁ (wrap m₂ next)

  unfoldable pub into_service : IntoService W Q R → Service W Q R
  unfolding wrap
  into_service (service s) = s
  into_service (wrapped m s) = wrap m s

  unfoldable pub new : IntoService W Q R → Pipeline W Q R
  unfolding into_service
  new source = record { handler = into_service source }

  -- `Pipeline` is a service too.
  unfoldable pub handle : Pipeline W Q R → Service W Q R
  handle p request = p.handler request

  -- The layers of a middleware, outermost first.
  abbrev pub layers : Middleware W Q R → List (Service W Q R → Service W Q R)
  layers (layer f) = f ∷ []
  layers (pair m₁ m₂) = layers m₁ ++ layers m₂

  abbrev pub apply_all : List (Service W Q R → Service W Q R) → Service W Q R → Service W Q R
  apply_all [] s = s
  apply_all (f ∷ fs) s = f (apply_all fs s)

  apply_all-append :
      (fs gs : List (Service W Q R → Service W Q R)) (s : Service W Q R)
      → apply_all (fs ++ gs) s ≡ apply_all fs (apply_all gs s)
  apply_all-append [] gs s = refl
  apply_all-append (f ∷ fs) gs s = ap f (apply_all-append fs gs s)

  wrap-layers : (m : Middleware W Q R) (s : Service W Q R) → wrap m s ≡ apply_all (layers m) s
  unfolding wrap
  wrap-layers (layer f) s = refl
  wrap-layers (pair m₁ m₂) s =
      wrap-layers m₁ (wrap m₂ s)
      ∙ ap (apply_all (layers m₁)) (wrap-layers m₂ s)
      ∙ sym (apply_all-append (layers m₁) (layers m₂) s)

  -- Layers that are given to a pipeline in any number and nesting, also by a pipeline inside a pipeline,
  -- run in the order in which they are written, the first one outermost; the pipeline itself adds nothing.
  pub handle-wrapped :
      (m₁ m₂ : Middleware W Q R) (s : Service W Q R)
      → (handle (new (wrapped m₁ (handle (new (wrapped m₂ s)))))
          ≡ apply_all (layers m₁ ++ layers m₂) s)
        × (handle (new (wrapped (pair m₁ m₂) s)) ≡ apply_all (layers m₁ ++ layers m₂) s)
        × (handle (new (service s)) ≡ s)
  unfolding handle new wrap
  handle-wrapped m₁ m₂ s =
      let whole : wrap m₁ (wrap m₂ s) ≡ apply_all (layers m₁ ++ layers m₂) s =
        wrap-layers (pair m₁ m₂) s in
      (whole, whole, refl)
