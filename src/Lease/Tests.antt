-- ===== src/Lease/Tests.antt =====
-- Two processes on one machine, and the theorems of this folder at them.
use moss_code.Base.{
  ℕ, ◌≡◌, refl, ◌≢◌, ◌≤◌, ◌+◌, ◌*◌, arith, Bool, true, false, some, [], lookup, update,
}
use moss_code.Lease.{
  Process, Moment, not_taken, interrupted, stale, acquire, release, read, is_alive, classify,
  is_empty, age, is_late, ttl_of, pid_alive,
}
use moss_code.Lease.Alive.{classify-other}

abbrev owner : Process
owner = record { pid = 100; host = "box"; boot_id = "b1"; ttl_s = 30 }

abbrev watcher : Process
watcher = record { pid = 200; host = "box"; boot_id = "b1"; ttl_s = 30 }

-- Every text is the same time, one million.
abbrev at : ℕ → Bool → Moment
at time found = record {
  clock = "t";
  time = time;
  process_found = λ pid. found;
  parse = λ s. some 1000000;
}

classify_runs :
    (classify watcher (at 40000000 true) "r" (acquire owner (at 1000000 true) "r" []).1
      ≡ (true, interrupted))
    × (classify watcher (at 2000000 false) "r" (acquire owner (at 1000000 true) "r" []).1
        ≡ (true, interrupted))
    × (classify watcher (at 2000000 true) "q" (acquire owner (at 1000000 true) "r" []).1
        ≡ (true, stale))
    × (classify watcher
          (at 2000000 true)
          "r"
          (release "r" (acquire owner (at 1000000 true) "r" []).1).1
        ≡ (true, stale))
unfolding classify acquire release read is_alive is_empty age is_late ttl_of pid_alive lookup update
classify_runs = (refl, refl, refl, refl)

thirty_seconds : 31000000 ≤ 1000000 + 30 * 1000000
thirty_seconds = omega arith

ttl_positive : owner.ttl_s ≢ 0
ttl_positive = omega arith

classify-other_example :
    classify watcher (at 31000000 true) "r" (acquire owner (at 1000000 true) "r" []).1
    ≡ (false, not_taken)
classify-other_example =
    classify-other owner watcher (at 1000000 true) (at 31000000 true) "r" [] refl refl refl
      ttl_positive thirty_seconds
