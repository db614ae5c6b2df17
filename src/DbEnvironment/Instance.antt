-- ===== src/DbEnvironment/Instance.antt =====
-- The life of the instance, and what a worker does without one.
use process_manager_service.Prelude.{
  List, Option, Outcome, [], none, refl, returned, some, true, false, undefined, ℕ, ◌∙◌, ap, ◌∷◌,
  ◌≡◌, Bool, map,
}
use process_manager_service.Event.{Any}
use process_manager_service.SubscriptionEventsCache
use process_manager_service.MongoModulesCollection.{Document, QueryException}
use process_manager_service.ContextWorker.{
  WorkerException, Environment, ContextWorker, handle_subscriptions,
}
use process_manager_service.DbEnvironment.{initialize, get_client}

module _ {P : Type 0} where
  -- The attempts to initialize, one after the other: what each returns, and the last instance.
  unfoldable pub initialize_all : List (Option P) → Option P → List Bool × Option P
  initialize_all [] instance = ([], instance)
  initialize_all (made ∷ attempts) instance =
      let (result, instance') = initialize made instance in
      let (results, last) = initialize_all attempts instance' in (result ∷ results, last)

  -- The first pool that could be made.
  abbrev first_made : List (Option P) → Option P
  first_made [] = none
  first_made (some pool ∷ attempts) = some pool
  first_made (none ∷ attempts) = first_made attempts

  abbrev successes : List (Option P) → List Bool
  successes [] = []
  successes (some pool ∷ attempts) = true ∷ map (λ made. true) attempts
  successes (none ∷ attempts) = false ∷ successes attempts

  kept :
      (attempts : List (Option P)) (pool : P)
      → initialize_all attempts (some pool) ≡ (map (λ made. true) attempts, some pool)
  unfolding initialize_all initialize
  kept [] pool = refl
  kept (made ∷ attempts) pool = rw (kept attempts pool) refl

  -- However often the environment is initialized, the instance is the first pool that could be made,
  -- and is never replaced; an attempt fails exactly when no pool has been made up to it.
  pub initialize_all_lem :
      (attempts : List (Option P))
      → initialize_all attempts none ≡ (successes attempts, first_made attempts)
  unfolding initialize_all initialize
  initialize_all_lem [] = refl
  initialize_all_lem (some pool ∷ attempts) = rw (kept attempts pool) refl
  initialize_all_lem (none ∷ attempts) = rw (initialize_all_lem attempts) refl

  -- If no attempt has made a pool, and a worker takes its client from the instance, then a message
  -- that it has to forward to somebody is forwarded through a null pointer, which is undefined
  -- behaviour.
  pub handle_subscriptions_without_instance :
      {W E : Type 0} (env : Environment E)
      (acquire : P → Outcome WorkerException (ℕ → Outcome QueryException (Option Document)))
      (attempts : List (Option P)) (any : Any) (c : ContextWorker W E) (request : ℕ × Any)
      (requests : List (ℕ × Any)) (w : W)
      → first_made attempts ≡ none
      → env.get_client ≡ get_client acquire (initialize_all attempts none).1
      → SubscriptionEventsCache.trigger_message_handlers c.subscription_events any c.world
        ≡ returned (request ∷ requests, w)
      → handle_subscriptions env any c ≡ undefined
  unfolding handle_subscriptions get_client
  handle_subscriptions_without_instance env acquire attempts any c request requests w never client
        triggered =
      let no_client : env.get_client ≡ undefined =
        client
        ∙ ap (λ r. get_client acquire r.1) (initialize_all_lem attempts)
        ∙ ap (get_client acquire) never in
      rw (triggered, handle_subscriptions) (rw no_client refl)
