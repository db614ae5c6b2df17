-- ===== src/ExampleService/Updates.antt =====
-- Updates of coordinates that come while others are being handled.
use mathlib.Core.List.{Perm, Permᴰ}
use mathlib.Core.Bool.{Bool-set}
use mathlib.Core.Logic.{∥∥₁_elim}
use process_manager_service.Prelude.{
  All, Bool, Bytes, List, Option, Option-cases, Outcome, Returns, Returns-mono, [], ap, arith,
  ends_with, false, fun_ext, if◌then◌else◌, inl, inr, length, none, not, refl, returned, some,
  subst, sym, true, ℕ, ◌&&◌, ◌++◌, ◌==◌, ◌>>=◌, ◌∙◌, ◌∷◌, ◌≡◌,
}
use process_manager_service.Event.{Any}
use process_manager_service.MongoModulesCollection.{Document, ModuleRecord, QueryException}
use process_manager_service.ContextWorker.{
  OperationCode, module_request, ServiceMessage, Environment, ContextWorker, datagram, take,
  complete_read, run,
}
use process_manager_service.ContextWorker.Reads.{IsReading, run_step}
use process_manager_service.ContextWorker.Forwarding.{IsReachable, forwarded}
use process_manager_service.ContextWorker.Overlap.{Server, Reach}
use process_manager_service.ContextWorker.Overlap.Taking.{datagrams}
use process_manager_service.ContextWorker.Overlap.Whole.{Reach-run}
use process_manager_service.ExampleService.{Gps, GpsCoordinates, Pair, set_coordinates}
use process_manager_service.ExampleService.Coordinates.{find, find-set_coordinates}
use process_manager_service.ExampleService.Task.{
  messages, updates, change_requests, complete_read-set_coordinates,
}

-- The coordinates of every module.
abbrev pub stored : GpsCoordinates → ℕ → Option Pair
stored w n = find n w

module _ {E : Type 0} (gps : Gps) (env : Environment E) (size : ℕ) where
  abbrev updates_with : OperationCode → Option Any → Bool
  updates_with module_request (some any) =
      gps.is_update any && (not (gps.is_get any) && ends_with any.type_url gps.update_type)
  updates_with _ _ = false

  -- Whether a datagram is an update: a request of the type that the service forwards, which is one
  -- for the first callback and not for the second.
  abbrev pub is_updating : Bytes × E → Bool
  is_updating (bytes, from) = elim (env.parse_from_string (take size bytes)) [
    | none ↦ false
    | some m ↦ updates_with m.operation_code m.request
  ]

  abbrev pub all_updating : List (Bytes × E) → Bool
  all_updating [] = true
  all_updating (d ∷ ds) = is_updating d && all_updating ds

  abbrev pair_of : Any → Pair
  pair_of any = let update = gps.unpack_update any in record { first = update.x; second = update.y }

  -- The coordinates that a module has after a datagram, if it has had these before.
  abbrev pub updated : ℕ → Bytes × E → Option Pair → Option Pair
  updated identifier (bytes, from) before = elim (env.parse_from_string (take size bytes)) [
    | none ↦ before
    | some m ↦ elim m.request [
      | none ↦ before
      | some any ↦ if m.sender_identifier == identifier then some (pair_of any) else before
    ]
  ]

  -- The coordinates of the last update from a module, and those from before where there is none.
  abbrev pub last_update : ℕ → List (Bytes × E) → Option Pair → Option Pair
  last_update identifier [] before = before
  last_update identifier (d ∷ ds) before = last_update identifier ds (updated identifier d before)

  -- The coordinates of every module after datagrams in this order.
  abbrev pub stored_after : List (Bytes × E) → GpsCoordinates → ℕ → Option Pair
  stored_after order w n = last_update n order (find n w)

  all_updating-Permᴰ : {xs ys : List (Bytes × E)} → Permᴰ xs ys → all_updating xs ≡ all_updating ys
  all_updating-Permᴰ Permᴰ.nil = refl
  all_updating-Permᴰ (Permᴰ.cons {a} {b} e perm) =
      let rest = all_updating-Permᴰ perm in let same = ap is_updating e in ground arith
  all_updating-Permᴰ (Permᴰ.swap {a} {b} {a'} {b'} {l} e₁ e₂) =
      let first = ap is_updating e₁ in let second = ap is_updating e₂ in ground arith
  all_updating-Permᴰ (Permᴰ.trans first second) =
      all_updating-Permᴰ first ∙ all_updating-Permᴰ second

  record Update (code : OperationCode) (request : Option Any) : Type 0 where
    any : Any
    is_request : code ≡ module_request
    has_request : request ≡ some any
    is_update : gps.is_update any ≡ true
    no_get : gps.is_get any ≡ false
    matches : ends_with any.type_url gps.update_type ≡ true

  updates_with-Update :
      (code : OperationCode) (request : Option Any)
      → updates_with code request ≡ true
      → Update code request
  updates_with-Update module_request (some any) h = record {
    any = any;
    is_request = refl;
    has_request = refl;
    is_update = ground arith;
    no_get = ground arith;
    matches = ground arith;
  }
  updates_with-Update module_request none h = absurd (ground arith)
  updates_with-Update _ request h = absurd (ground arith)

  -- The message of an update, and what it sets.
  record Change (d : Bytes × E) : Type 0 where
    m : ServiceMessage
    parsed : env.parse_from_string (take size d.0) ≡ some m
    update : Update m.operation_code m.request

  is_updating-Change : (d : Bytes × E) → is_updating d ≡ true → Change d
  is_updating-Change d h = elim (Option-cases (env.parse_from_string (take size d.0))) [
    | inl e ↦ absurd (let impossible : false ≡ true = rw (is_updating, e) at h in cc)
    | inr (m, e) ↦ record {
      m = m;
      parsed = e;
      update = updates_with-Update m.operation_code m.request (rw (is_updating, e) at h);
    }
  ]

  updated-Change :
      (d : Bytes × E) (change : Change d) (n : ℕ) (before : Option Pair)
      → updated n d before
        ≡ (if change.m.sender_identifier == n then some (pair_of change.update.any) else before)
  updated-Change d change n before = rw (updated, change.parsed) (rw change.update.has_request refl)

module _ {E : Type 0} (gps : Gps) (env : Environment E)
    (find_one : ℕ → Outcome QueryException (Option Document)) (found : ℕ → Option ModuleRecord)
    (address : ModuleRecord → E) (client : env.get_client ≡ returned find_one)
    (at_once : env.sends_at_once ≡ true)
    (reachable : (n : ℕ) → IsReachable env find_one found address n) (subscribers : List ℕ) where
  -- The worker reads, and has the callbacks of the task and these subscribers.
  abbrev pub HasTask : ContextWorker GpsCoordinates E → Type 0
  HasTask c =
      IsReading c
      × (c.message_events ≡ messages gps)
      × (c.subscription_events ≡ updates gps subscribers)

  reach_requests :
      (requests : List (ℕ × Any))
      → All (λ request. IsReachable env find_one found address request.0) requests
  reach_requests [] = tt
  reach_requests (request ∷ requests) = (reachable request.0, reach_requests requests)

  abbrev Updated : ℕ → List (Bytes × E) → GpsCoordinates → GpsCoordinates → Type 0
  Updated size ds before after =
      (n : ℕ) → find n after ≡ last_update gps env size n ds (find n before)

  complete_read-Updated :
      (d : Bytes × E) (c : ContextWorker GpsCoordinates E)
      → HasTask c
      → Change gps env c.buffer_size d
      → (c' : ContextWorker GpsCoordinates E) × (complete_read env (datagram d.0 d.1) c
          ≡ returned c')
        × HasTask c'
        × (c'.buffer_size ≡ c.buffer_size)
        × Updated c.buffer_size (d ∷ []) c.world c'.world
  complete_read-Updated d c has change =
      let u = change.update in
      let pair = pair_of gps env c.buffer_size u.any in
      (
        record c {
          world = set_coordinates change.m.sender_identifier pair c.world;
          sent =
              c.sent
              ++ forwarded env find_one found address (change_requests gps u.any subscribers);
        },
        complete_read-set_coordinates gps env find_one found address client at_once d.0 d.1 change.m
            u.any subscribers c has.0 has.1 has.2 change.parsed u.is_request u.has_request
            u.is_update u.no_get u.matches (reach_requests (change_requests gps u.any subscribers)),
        has,
        refl,
        λ n.
            find-set_coordinates n change.m.sender_identifier pair c.world
            ∙ sym (updated-Change gps env c.buffer_size d change n (find n c.world)),
      )

  run-Updated :
      (size : ℕ) (ds : List (Bytes × E)) (c : ContextWorker GpsCoordinates E)
      → HasTask c
      → c.buffer_size ≡ size
      → all_updating gps env size ds ≡ true
      → Returns (run env (datagrams ds) c) (λ c'. Updated size ds c.world c'.world)
  unfolding run
  run-Updated size [] c has room h = λ n. refl
  run-Updated size (d ∷ ds) c has room h =
      let change =
        is_updating-Change gps env c.buffer_size d
          (ap (λ x. is_updating gps env x d) room ∙ ground arith) in
      let (c', taken, has', kept, first) = complete_read-Updated d c has change in
      let taken_all : run env (datagrams (d ∷ ds)) c ≡ run env (datagrams ds) c' =
        run_step env (datagram d.0 d.1) (datagrams ds) c has.0.0
        ∙ ap (λ o. o >>= λ x. run env (datagrams ds) x) taken in
      rw taken_all (
        Returns-mono (run env (datagrams ds) c') _ _
          (run-Updated size ds c' has' (kept ∙ room) (ground arith))
          λ c'' later n.
            later n
            ∙ ap (last_update gps env size n ds)
                (first n ∙ ap (λ x. updated gps env x n d (find n c.world)) room))

  -- To a worker that reads, and that has the callbacks of the task and any subscribers, there come
  -- updates, while others are being handled, on any number of threads; the client of the database
  -- is there, asio sends a datagram before `async_send_to` returns, and every module is unknown to
  -- the database or has a good address. When no handler is left, every module has the coordinates of the last of its updates in some order of all that
  -- have come, and a module that has sent none has those from before.
  pub Reach-last_update :
      (threads : ℕ) (c : ContextWorker GpsCoordinates E) (buffer : Bytes) (endpoint : E)
      {arrived : List (Bytes × E)} {s : Server GpsCoordinates E}
      → HasTask c
      → length buffer ≡ c.buffer_size
      → Reach env threads c buffer endpoint arrived s
      → s.handlers ≡ []
      → all_updating gps env c.buffer_size arrived ≡ true
      → (order : List (Bytes × E)) × Perm order arrived
        × (stored s.worker.world ≡ stored_after gps env c.buffer_size order c.world)
  Reach-last_update threads c buffer endpoint has room reach none_left updating =
      let (order, perm, ran) = Reach-run env threads c buffer endpoint has.0 room reach none_left in
      let ordered : all_updating gps env c.buffer_size order ≡ true =
        ∥∥₁_elim perm (Bool-set _ _) (all_updating-Permᴰ gps env c.buffer_size) ∙ updating in
      (
        order,
        perm,
        fun_ext (
            subst (λ h. Returns h (λ c'. Updated c.buffer_size order c.world c'.world)) ran
              (run-Updated c.buffer_size order c has refl ordered)),
      )
