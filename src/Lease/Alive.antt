-- ===== src/Lease/Alive.antt =====
-- When a run is taken over, and when it is not.
use moss_code.Base.{
  ◌+◌, ◌*◌, ◌≤◌, ◌≡◌, ◌≢◌, refl, inl, inr, String, true, false, Option, none, some, arith, eq_iff,
  if◌then◌else◌, ◌==◌, Dict, update, lookup-update, Bool-cases,
}
use moss_code.Lease.{
  Lease, File, object, Process, Moment, not_taken, acquire, read, heartbeat, is_alive, classify,
  is_empty, is_own, age, number_or_zero, is_late, ttl_of, pid_alive,
}

read-update :
    (run_id : String) (l : Lease) (files : Dict File)
    → read run_id (update run_id (object l) files) ≡ some l
unfolding read
read-update run_id l files =
    rw (read, lookup-update run_id run_id (object l) files) (ground (arith, eq_iff run_id run_id))

own_parts :
    (p : Process) (l : Lease)
    → is_own p l ≡ true
    → (is_empty l ≡ false) × ((number_or_zero l.owner_pid == p.pid) ≡ true)
own_parts p l h = ground arith

is_alive-own : (p : Process) (m : Moment) (l : Lease) → is_own p l ≡ true → is_alive p m l ≡ true
unfolding is_alive
is_alive-own p m l own = let (full, same_pid) = own_parts p l own in rw (full, same_pid)

-- What an operation leaves: its lease, in the file of the run, and nothing else changes.
abbrev IsWritten : Process → Moment → String → Lease × Dict File → Type 0
IsWritten p m run_id (l, files) =
    (is_own p l ≡ true)
    × (read run_id files ≡ some l)
    × (l.heartbeat_at ≡ some m.clock)
    × (l.ttl_s ≡ some p.ttl_s)

acquire-IsWritten :
    (p : Process) (m : Moment) (run_id : String) (files : Dict File)
    → IsWritten p m run_id (acquire p m run_id files)
unfolding acquire is_empty
acquire-IsWritten p m run_id files = (ground arith, read-update run_id _ files, refl, refl)

abbrev refreshed : Process → Moment → Lease → Lease
refreshed p m l = record l { heartbeat_at = some m.clock; ttl_s = some p.ttl_s }

is_own-refreshed :
    (p : Process) (m : Moment) (l : Lease) → is_own p l ≡ true → is_own p (refreshed p m l) ≡ true
unfolding is_empty
is_own-refreshed p m l h = ground arith

own_or_not-IsWritten :
    (p : Process) (m : Moment) (run_id : String) (files : Dict File) (l : Lease)
    → IsWritten p m run_id (
        if is_own p l
        then (refreshed p m l, update run_id (object (refreshed p m l)) files)
        else acquire p m run_id files)
own_or_not-IsWritten p m run_id files l = elim (Bool-cases (is_own p l)) [
  | inl e ↦ rw e (is_own-refreshed p m l e, read-update run_id (refreshed p m l) files, refl, refl)
  | inr e ↦ rw e (acquire-IsWritten p m run_id files)
]

stored-IsWritten :
    (p : Process) (m : Moment) (run_id : String) (files : Dict File) (stored : Option Lease)
    → read run_id files ≡ stored
    → IsWritten p m run_id (heartbeat p m run_id files)
unfolding heartbeat
stored-IsWritten p m run_id files none e = rw (heartbeat, e) (acquire-IsWritten p m run_id files)
stored-IsWritten p m run_id files (some l) e =
    rw (heartbeat, e) (own_or_not-IsWritten p m run_id files l)

heartbeat-IsWritten :
    (p : Process) (m : Moment) (run_id : String) (files : Dict File)
    → IsWritten p m run_id (heartbeat p m run_id files)
heartbeat-IsWritten p m run_id files = stored-IsWritten p m run_id files (read run_id files) refl

-- A process never takes its own run over: after a heartbeat, whatever the files held before and
-- whatever the clock says since, the run counts as alive for it.
pub classify-heartbeat :
    (p : Process) (m later : Moment) (run_id : String) (files : Dict File)
    → classify p later run_id (heartbeat p m run_id files).1 ≡ (false, not_taken)
unfolding classify
classify-heartbeat p m later run_id files =
    let (own, stored, at, ttl) = heartbeat-IsWritten p m run_id files in
    rw (classify, stored, is_alive-own p later (heartbeat p m run_id files).0 own)

in_time :
    (p q : Process) (m later : Moment) (run_id : String) (files : Dict File)
    → p.ttl_s ≢ 0
    → later.parse m.clock ≡ some m.time
    → later.time ≤ m.time + p.ttl_s * 1000000
    → is_late
        (age later (acquire p m run_id files).0.heartbeat_at)
        (ttl_of q (acquire p m run_id files).0)
      ≡ false
unfolding acquire is_late age ttl_of
in_time p q m later run_id files ttl parse time = rw parse (ground arith)

is_alive-granted :
    (p q : Process) (m later : Moment) (run_id : String) (files : Dict File)
    → q.boot_id ≡ p.boot_id
    → later.process_found p.pid ≡ true
    → later.parse m.clock ≡ some m.time
    → p.ttl_s ≢ 0
    → later.time ≤ m.time + p.ttl_s * 1000000
    → is_alive q later (acquire p m run_id files).0 ≡ true
unfolding is_alive acquire is_empty pid_alive
is_alive-granted p q m later run_id files boot found parse ttl time =
    rw (boot, found)
      (ground (arith, in_time p q m later run_id files ttl parse time, eq_iff p.boot_id p.boot_id))

-- Another process leaves a run alone whose owner took the lease no longer ago than its time to live, which
-- is not 0, if it still finds the owner's process, has the same boot id, and can read the lease's time.
pub classify-other :
    (p q : Process) (m later : Moment) (run_id : String) (files : Dict File)
    → q.boot_id ≡ p.boot_id
    → later.process_found p.pid ≡ true
    → later.parse m.clock ≡ some m.time
    → p.ttl_s ≢ 0
    → later.time ≤ m.time + p.ttl_s * 1000000
    → classify q later run_id (acquire p m run_id files).1 ≡ (false, not_taken)
unfolding classify acquire
classify-other p q m later run_id files boot found parse ttl time = rw (
  classify,
  read-update run_id (acquire p m run_id files).0 files,
  is_alive-granted p q m later run_id files boot found parse ttl time,
)
