-- ===== src/Router/Fallback.antt =====
-- What the fallback to the main model guarantees over a run.
use moss_code.Base.{
  ◌+◌, ◌<◌, ◌≡◌, ◌≢◌, refl, ◌∙◌, concat, String, Bool, true, false, Option, none, some, List, [],
  ◌∷◌, ◌++◌, arith, if◌then◌else◌, elem, filter, length, Bool-cases, inl, inr,
}
use moss_code.Router.{
  Route, main, aux, is_aux, is_main, Client, RouteRecord, ModelRouter, new_router, note, route,
  Outcome, returned, raised, fall_back, call, target, summary, aux_tasks,
}

-- The façade of a task names the client that serves the task.
pub route-target :
    (task_kind : String) (router : ModelRouter)
    → (route task_kind router).0.1 ≡ target task_kind router
unfolding route target
route-target task_kind router = ground arith

filter-append :
    (rs ss : List RouteRecord)
    → length (filter (λ r. is_aux r.route) (rs ++ ss))
      ≡ length (filter (λ r. is_aux r.route) rs) + length (filter (λ r. is_aux r.route) ss)
filter-append [] ss = omega arith
filter-append (r ∷ rs) ss = ground (arith, filter-append rs ss)

-- A degraded run has called the second model, and without one nothing is degraded.
pub record IsTruthful (router : ModelRouter) : Type 0 where
  pub called : router.aux_degraded ≡ true → 0 < (summary router).aux_calls
  pub alone :
      router.aux_client ≡ none → (router.aux_degraded ≡ false) × ((summary router).aux_calls ≡ 0)

note-calls :
    (task_kind reason : String) (r : Route) (client : Client) (router : ModelRouter)
    → (summary (note task_kind r client reason router)).aux_calls
      ≡ (summary router).aux_calls + (if is_aux r then 1 else 0)
unfolding summary note
note-calls task_kind reason main client router = omega (
  arith,
  filter-append router.routes (
      record {
        task_kind = task_kind;
        route = main;
        model = client.model;
        provider = client.provider;
        reason = reason;
      }
      ∷ []),
)
note-calls task_kind reason aux client router = omega (
  arith,
  filter-append router.routes (
      record {
        task_kind = task_kind;
        route = aux;
        model = client.model;
        provider = client.provider;
        reason = reason;
      }
      ∷ []),
)

note_main-IsTruthful :
    (task_kind reason : String) (client : Client) (router : ModelRouter)
    → IsTruthful router
    → IsTruthful (note task_kind main client reason router)
unfolding note
note_main-IsTruthful task_kind reason client router h = record {
  called = λ d. omega (arith, h.called d, note-calls task_kind reason main client router);
  alone = λ e.
      ((h.alone e).0, omega (arith, (h.alone e).1, note-calls task_kind reason main client router));
}

note_aux-IsTruthful :
    (task_kind reason : String) (client : Client) (router : ModelRouter)
    → router.aux_client ≢ none
    → IsTruthful (note task_kind aux client reason router)
      × (0 < (summary (note task_kind aux client reason router)).aux_calls)
unfolding note
note_aux-IsTruthful task_kind reason client router two =
    let one_more = note-calls task_kind reason aux client router in
    (
      record { called = λ d. omega (arith, one_more); alone = λ e. absurd (two e) },
      omega (arith, one_more),
    )

routed-IsTruthful :
    (task_kind : String) (router : ModelRouter) (client : Option Client)
    → IsTruthful router
    → router.aux_client ≡ client
    → IsTruthful (route task_kind router).1
      × ((route task_kind router).0.0 ≡ aux
          → (0 < (summary (route task_kind router).1).aux_calls)
            × ((route task_kind router).1.aux_client ≢ none))
unfolding route
routed-IsTruthful task_kind router client h e = elim (Bool-cases (elem task_kind aux_tasks)) [
  | inr n ↦ rw (route, n) (note_main-IsTruthful task_kind _ router.main_client router h, λ a. cc)
  | inl y ↦ aux_task-IsTruthful client y e
]
  where
    aux_task-IsTruthful :
        (c : Option Client)
        → elem task_kind aux_tasks ≡ true
        → router.aux_client ≡ c
        → IsTruthful (route task_kind router).1
          × ((route task_kind router).0.0 ≡ aux
              → (0 < (summary (route task_kind router).1).aux_calls)
                × ((route task_kind router).1.aux_client ≢ none))
    aux_task-IsTruthful none y f =
        rw (route, y, f) (note_main-IsTruthful task_kind _ router.main_client router h, λ a. cc)
    aux_task-IsTruthful (some c) y f =
        let (kept, more) = note_aux-IsTruthful task_kind "aux task" c router (λ n. cc) in
        rw (route, y, f) (kept, λ a. (more, λ n. cc))

-- What the choice of a client leaves: with the second model, one call more.
route-IsTruthful :
    (task_kind : String) (router : ModelRouter)
    → IsTruthful router
    → IsTruthful (route task_kind router).1
      × ((route task_kind router).0.0 ≡ aux
          → (0 < (summary (route task_kind router).1).aux_calls)
            × ((route task_kind router).1.aux_client ≢ none))
route-IsTruthful task_kind router h = routed-IsTruthful task_kind router router.aux_client h refl

degraded-IsTruthful :
    (task_kind reason : String) (router : ModelRouter)
    → (0 < (summary router).aux_calls) × (router.aux_client ≢ none)
    → IsTruthful
        (note task_kind main router.main_client reason (record router { aux_degraded = true }))
unfolding note summary
degraded-IsTruthful task_kind reason router (some_calls, two) = record {
  called = λ d. omega (
    arith,
    some_calls,
    note-calls task_kind reason main router.main_client (record router { aux_degraded = true }),
  );
  alone = λ e. absurd (two e);
}

module _ (W R : Type 0) (invoke : Client → W → Outcome R × W) where
  either-IsTruthful :
      (b : Bool) (x y : Outcome R × (ModelRouter × W))
      → IsTruthful x.1.0
      → IsTruthful y.1.0
      → IsTruthful (if b then x else y).1.0
  either-IsTruthful true x y h k = h
  either-IsTruthful false x y h k = k

  fall_back-IsTruthful :
      (task_kind : String) (r : Route) (o : Outcome R) (router : ModelRouter) (w : W)
      → IsTruthful router
      → (r ≡ aux → (0 < (summary router).aux_calls) × (router.aux_client ≢ none))
      → IsTruthful (fall_back W R invoke task_kind r o router w).1.0
  unfolding fall_back is_main
  fall_back-IsTruthful task_kind r (returned x) router w h called = h
  fall_back-IsTruthful task_kind main (raised exc) router w h called = h
  fall_back-IsTruthful task_kind aux (raised exc) router w h called =
      either-IsTruthful router.aux_is_main _ _ h
        (degraded-IsTruthful task_kind (concat ("aux failed: " ∷ exc ∷ [])) router (called refl))

  -- A run of tasks, one after the other.
  unfoldable pub calls : List String → ModelRouter → W → ModelRouter
  calls [] router w = router
  calls (task_kind ∷ tasks) router w =
      let (o, (router', w')) = call W R invoke task_kind router w in calls tasks router' w'

  calls-IsTruthful :
      (tasks : List String) (router : ModelRouter) (w : W)
      → IsTruthful router
      → IsTruthful (calls tasks router w)
  unfolding calls call
  calls-IsTruthful [] router w h = h
  calls-IsTruthful (task_kind ∷ tasks) router w h =
      let (routed, called) = route-IsTruthful task_kind router h in
      calls-IsTruthful tasks _ _
        (fall_back-IsTruthful task_kind _ _ (route task_kind router).1 _ routed called)

  -- Over any tasks from a new router: a run that counts as degraded has called the second model, and without
  -- a second model no call of one is counted and nothing is degraded.
  pub calls-summary :
      (main_client : Client) (aux_client : Option Client) (aux_is_main : Bool) (tasks : List String)
      (w : W)
      → IsTruthful (calls tasks (new_router main_client aux_client aux_is_main) w)
  unfolding new_router summary
  calls-summary main_client aux_client aux_is_main tasks w =
      calls-IsTruthful tasks (new_router main_client aux_client aux_is_main) w
        (fresh main_client aux_client aux_is_main)
    where
      fresh : (m : Client) (a : Option Client) (b : Bool) → IsTruthful (new_router m a b)
      fresh m a b = record { called = λ d. cc; alone = λ e. (refl, refl) }

  fall_back-returns :
      (task_kind : String) (r : Route) (o : Outcome R) (router : ModelRouter) (w : W)
      → router.aux_is_main ≡ false
      → ((v : W) → (x : R) × ((invoke router.main_client v).0 ≡ returned x))
      → (r ≡ main → (x : R) × (o ≡ returned x))
      → (x : R) × ((fall_back W R invoke task_kind r o router w).0 ≡ returned x)
  unfolding fall_back is_main
  fall_back-returns task_kind r (returned y) router w two works first = (y, refl)
  fall_back-returns task_kind main (raised exc) router w two works first =
      let (x, e) = first refl in (x, cc)
  fall_back-returns task_kind aux (raised exc) router w two works first =
      let (x, e) = works w in (x, rw (fall_back, two) e)

  route_keeps :
      (task_kind : String) (router : ModelRouter)
      → ((route task_kind router).1.main_client ≡ router.main_client)
        × ((route task_kind router).1.aux_is_main ≡ router.aux_is_main)
        × ((route task_kind router).0.0 ≡ main → (route task_kind router).0.1 ≡ router.main_client)
  unfolding route note
  route_keeps task_kind router = (ground arith, ground arith, ground arith)

  -- Where the second model is not the main one under another name, a task is served whenever the main model
  -- can serve it: the exception of the second model is not passed on.
  pub call-returns :
      (task_kind : String) (router : ModelRouter) (w : W)
      → router.aux_is_main ≡ false
      → ((v : W) → (r : R) × ((invoke router.main_client v).0 ≡ returned r))
      → (r : R) × ((call W R invoke task_kind router w).0 ≡ returned r)
  unfolding call
  call-returns task_kind router w two works =
      let (same_main, same_two, to_main) = route_keeps task_kind router in
      fall_back-returns task_kind _ _ (route task_kind router).1 _ (same_two ∙ two)
        (λ v. rw same_main (works v)) (λ e. rw (to_main e) (works w))
