-- ===== src/Router.antt =====
-- moss/extensions/router.py: which model serves a task, and what happens when the second model fails.
-- A client is a parameter: its name, its provider, and what a call of it does to the world.
pub mod Fallback
mod Tests
use moss_code.Base.{
  ℕ, ◌+◌, ◌≡◌, String, Bool, true, false, not, ◌&&◌, ◌||◌, Option, none, some, List, [], ◌∷◌, ◌++◌,
  map, if◌then◌else◌, same, concat, elem, filter, length,
}

unfoldable pub aux_tasks : List String
aux_tasks = "compaction" ∷ "reflection" ∷ "failure_labeling" ∷ "judge" ∷ "budget_summary" ∷ []

pub data Route : Type 0 where
  main aux : Route

abbrev pub is_aux : Route → Bool
is_aux main = false
is_aux aux = true

pub record Client : Type 0 where
  pub model : String
  pub provider : String

pub record RouteRecord : Type 0 where
  pub task_kind : String
  pub route : Route
  pub model : String
  pub provider : String
  pub reason : String

-- `observer` only hears of a record, and what it raises is dropped. `aux_is_main` says that both clients
-- are the same object.
pub record ModelRouter : Type 0 where
  pub main_client : Client
  pub aux_client : Option Client
  pub aux_is_main : Bool
  pub aux_degraded : Bool
  pub routes : List RouteRecord

unfoldable pub new_router : Client → Option Client → Bool → ModelRouter
new_router main_client aux_client aux_is_main = record {
  main_client = main_client;
  aux_client = aux_client;
  aux_is_main = aux_is_main;
  aux_degraded = false;
  routes = [];
}

unfoldable pub note : String → Route → Client → String → ModelRouter → ModelRouter
note task_kind r client reason router = record router {
  routes =
      router.routes
      ++ (record {
        task_kind = task_kind;
        route = r;
        model = client.model;
        provider = client.provider;
        reason = reason;
      }
          ∷ []);
}

-- The client with the route that leads to it.
unfoldable pub route : String → ModelRouter → (Route × Client) × ModelRouter
unfolding aux_tasks note
route task_kind router =
    let main_client = router.main_client in
    if not (elem task_kind aux_tasks)
    then ((main, main_client), note task_kind main main_client "not an aux task" router)
    else elim router.aux_client [
      | none ↦
          ((main, main_client), note task_kind main main_client "no aux model configured" router)
      | some client ↦ ((aux, client), note task_kind aux client "aux task" router)
    ]

-- What a call returns, or the text of its exception.
pub data Outcome {ℓ} (R : Type ℓ) : Type ℓ where
  returned : R → Outcome R
  raised : String → Outcome R

-- `client is self.main_client`
unfoldable pub is_main : Route → ModelRouter → Bool
is_main main router = true
is_main aux router = router.aux_is_main

module _ (W R : Type 0) (invoke : Client → W → Outcome R × W) where
  -- What follows the first call.
  unfoldable pub fall_back :
      String → Route → Outcome R → ModelRouter → W → Outcome R × (ModelRouter × W)
  unfolding is_main note
  fall_back task_kind r (returned result) router w = (returned result, (router, w))
  fall_back task_kind r (raised exc) router w =
      let (again, w') = invoke router.main_client w in
      if is_main r router then (raised exc, (router, w)) else (
        again,
        (
          note task_kind main router.main_client (concat ("aux failed: " ∷ exc ∷ []))
              (record router { aux_degraded = true }),
          w',
        ),
      )

  unfoldable pub call : String → ModelRouter → W → Outcome R × (ModelRouter × W)
  call task_kind router w =
      let ((r, client), routed) = route task_kind router in
      let (first, w') = invoke client w in fall_back task_kind r first routed w'

-- `RoutedClient._target`
unfoldable pub target : String → ModelRouter → Client
unfolding aux_tasks
target task_kind router =
    let main_client = router.main_client in
    if elem task_kind aux_tasks
    then elim router.aux_client [ none ↦ main_client | some client ↦ client ]
    else main_client

pub record Summary : Type 0 where
  pub aux_configured : Bool
  pub aux_model : String
  pub aux_provider : String
  pub aux_calls : ℕ
  pub aux_degraded : Bool

-- `summary`, but for the sorted task kinds.
unfoldable pub summary : ModelRouter → Summary
summary router = record {
  aux_configured = elim router.aux_client [ none ↦ false | some client ↦ true ];
  aux_model = elim router.aux_client [ none ↦ "" | some client ↦ client.model ];
  aux_provider = elim router.aux_client [ none ↦ "" | some client ↦ client.provider ];
  aux_calls = length (filter (λ r. is_aux r.route) router.routes);
  aux_degraded = router.aux_degraded;
}
