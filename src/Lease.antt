-- ===== src/Lease.antt =====
-- moss/runs/lease.py: the lease of a run, by which another process sees whether the run is still alive.
-- A time is a number of microseconds, which is what `datetime` resolves; an age below 0 counts as 0, and
-- no comparison with a positive number of seconds differs by that.
pub mod Alive
mod Tests
use moss_code.Base.{
  ℕ, ◌-◌, ◌*◌, ◌≡◌, String, Bool, true, false, not, ◌&&◌, ◌||◌, Option, none, some, List, [], ◌∷◌,
  ltb, leb, ◌==◌, if◌then◌else◌, same, truthy, Dict, lookup, update, filter,
}

pub data Takeover : Type 0 where
  not_taken interrupted stale : Takeover

-- The fields of a lease, each of which a file may lack.
pub record Lease : Type 0 where
  pub owner_pid : Option ℕ
  pub host : Option String
  pub boot_id : Option String
  pub started_at : Option String
  pub heartbeat_at : Option String
  pub ttl_s : Option ℕ

-- The lease file of a run: a JSON object, or a text that is none.
pub data File : Type 0 where
  object : Lease → File
  corrupt : File

-- A process with its `RunLease`: its pid, the host and boot ids it found, and its time to live.
pub record Process : Type 0 where
  pub pid : ℕ
  pub host : String
  pub boot_id : String
  pub ttl_s : ℕ

-- What the process sees of its surroundings at one moment: `now()` as a text and as a time,
-- `os.kill(pid, 0)` finding the process, and `datetime.fromisoformat`.
pub record Moment : Type 0 where
  pub clock : String
  pub time : ℕ
  pub process_found : ℕ → Bool
  pub parse : String → Option ℕ

-- `int(value or 0)` and `str(value or "")`
abbrev number_or_zero : Option ℕ → ℕ
number_or_zero none = 0
number_or_zero (some n) = n

abbrev text_or_empty : Option String → String
text_or_empty none = ""
text_or_empty (some s) = s

unfoldable pub pid_alive : Moment → ℕ → Bool
pid_alive m pid = if pid == 0 then true else m.process_found pid

-- `none` where the timestamp is missing or no date.
unfoldable pub age : Moment → Option String → Option ℕ
age m none = none
age m (some t) = elim (m.parse t) [ none ↦ none | some parsed ↦ some (m.time - parsed) ]

-- `elapsed is not None and elapsed > ttl`
unfoldable pub is_late : Option ℕ → ℕ → Bool
is_late none ttl = false
is_late (some elapsed) ttl = ltb (ttl * 1000000) elapsed

abbrev pub missing {ℓ} : {A : Type ℓ} → Option A → Bool
missing none = true
missing (some a) = false

unfoldable pub is_empty : Lease → Bool
is_empty l =
    missing l.owner_pid
    && missing l.host
    && missing l.boot_id
    && missing l.started_at
    && missing l.heartbeat_at
    && missing l.ttl_s

-- `int(lease.get("ttl_s", self.ttl_s) or self.ttl_s)`
unfoldable pub ttl_of : Process → Lease → ℕ
ttl_of p l = let t = number_or_zero l.ttl_s in if t == 0 then p.ttl_s else t

unfoldable pub acquire : Process → Moment → String → Dict File → Lease × Dict File
acquire p m run_id files =
    let payload : Lease = record {
      owner_pid = some p.pid;
      host = some p.host;
      boot_id = some p.boot_id;
      started_at = some m.clock;
      heartbeat_at = some m.clock;
      ttl_s = some p.ttl_s;
    } in
    (payload, update run_id (object payload) files)

unfoldable pub read : String → Dict File → Option Lease
read run_id files = elim (lookup run_id files) [
  | none ↦ none
  | some (object l) ↦ some l
  | some corrupt ↦ none
]

-- The file is there, is no empty object, and names this process.
abbrev pub is_own : Process → Lease → Bool
is_own p l = not (is_empty l) && (number_or_zero l.owner_pid == p.pid)

unfoldable pub heartbeat : Process → Moment → String → Dict File → Lease × Dict File
heartbeat p m run_id files = elim (read run_id files) [
  | none ↦ acquire p m run_id files
  | some l ↦
      let payload = record l { heartbeat_at = some m.clock; ttl_s = some p.ttl_s } in
      if is_own p l
      then (payload, update run_id (object payload) files)
      else acquire p m run_id files
]

-- Whether there was a file to remove, and the files after that.
unfoldable pub release : String → Dict File → Bool × Dict File
release run_id files = elim (lookup run_id files) [
  | none ↦ (false, files)
  | some f ↦ (true, filter (λ e. not (same e.0 run_id)) files)
]

unfoldable pub is_alive : Process → Moment → Lease → Bool
is_alive p m l =
    let pid = number_or_zero l.owner_pid in
    let late = is_late (age m l.heartbeat_at) (ttl_of p l) in
    let host = text_or_empty l.host in
    let boot = text_or_empty l.boot_id in
    if is_empty l
    then false
    else if pid == p.pid
    then true
    else if truthy host && truthy p.host && not (same host p.host)
    then not late
    else if truthy boot && truthy p.boot_id && not (same boot p.boot_id)
    then false
    else if not (pid_alive m pid)
    then false
    else not late

-- Whether the run may be taken over, and as what.
unfoldable pub classify : Process → Moment → String → Dict File → Bool × Takeover
classify p m run_id files = elim (read run_id files) [
  | none ↦ (true, stale)
  | some l ↦ if is_alive p m l then (false, not_taken) else (true, interrupted)
]
