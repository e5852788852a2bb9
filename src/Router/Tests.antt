-- ===== src/Router/Tests.antt =====
-- A router whose second model fails, and the theorems of this folder at it. The world counts the calls.
use moss_code.Base.{ℕ, suc, ◌≡◌, refl, String, true, false, some, same, if◌then◌else◌}
use moss_code.Router.{
  Client, ModelRouter, new_router, route, Outcome, returned, raised, call, fall_back, is_main, note,
  aux_tasks, summary,
}
use moss_code.Router.Fallback.{call-returns}

abbrev big : Client
big = record { model = "big"; provider = "p" }

abbrev small : Client
small = record { model = "small"; provider = "p" }

abbrev ask : Client → ℕ → Outcome String × ℕ
ask c w = if same c.model "big" then (returned "ok", suc w) else (raised "down", suc w)

abbrev two : ModelRouter
unfolding new_router
two = new_router big (some small) false

fallback_run :
    let r : Outcome String × (ModelRouter × ℕ) = call ℕ String ask "judge" two 0 in
    (r.0 ≡ returned "ok")
    × ((summary r.1.0).aux_calls ≡ 1)
    × (r.1.0.aux_degraded ≡ true)
    × (r.1.1 ≡ 2)
unfolding two new_router call route fall_back is_main note aux_tasks summary
fallback_run = (refl, refl, refl, refl)

call-returns_example : (r : String) × ((call ℕ String ask "judge" two 0).0 ≡ returned r)
unfolding two new_router
call-returns_example = call-returns ℕ String ask "judge" two 0 refl (λ v. ("ok", refl))
