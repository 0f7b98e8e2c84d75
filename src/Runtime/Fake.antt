-- ===== src/Runtime/Fake.antt =====
-- internal/primitives/runtime/runtime.go and fake/fake.go. The map of containers holds pointers, and the
-- goroutines of Start keep theirs when the map changes: a pointer is a position in a heap. Each stretch of a
-- goroutine between two waits is a function; Steps says when it runs.
use minicloud_platform.Prelude.{
  ℕ, ◌+◌, ◌*◌, Bool, true, false, not, ◌&&◌, Option, none, some, List, [], ◌∷◌, ◌++◌, ◌==◌,
  if◌then◌else◌, length, get_elem?, set, Bytes, codes, Dict, lookup, insert, delete,
}
use minicloud_platform.Prelude.Int64.{add_i64}

pub data Status : Type 0 where
  creating running exited failed unknown : Status

pub record Container : Type 0 where
  pub id : Bytes
  pub name : Bytes
  pub status : Status
  pub image : Bytes
  pub created : ℕ
  pub started : ℕ
  pub exited_at : ℕ
  pub exit : ℕ
  pub pid : ℕ

-- what Create reads of a specification
pub record Spec : Type 0 where
  pub id : Bytes
  pub name : Bytes
  pub image : Bytes

pub record Stats : Type 0 where
  pub cpu_usage_milli : ℕ
  pub mem_usage_bytes : ℕ
  pub net_bytes : ℕ

pub data RuntimeError : Type 0 where
  not_found still_running : RuntimeError

-- `fakeContainer`: which of its channels are closed
pub record Held : Type 0 where
  pub cont : Container
  pub stop_closed : Bool
  pub done_closed : Bool

pub record Fake : Type 0 where
  pub images : Dict Bool
  pub conts : Dict ℕ
  pub heap : List Held
  pub logs : Dict Bytes
  pub stats : Dict Stats

abbrev pub new : Fake
new = record { images = []; conts = []; heap = []; logs = []; stats = [] }

abbrev pub no_stats : Stats
no_stats = record { cpu_usage_milli = 0; mem_usage_bytes = 0; net_bytes = 0 }

-- a write through a pointer
abbrev pub modify_with : (Held → Held) → ℕ → List Held → Option Held → List Held
modify_with g a heap none = heap
modify_with g a heap (some h) = set heap a (g h)

unfoldable pub modify : (Held → Held) → ℕ → List Held → List Held
modify g a heap = modify_with g a heap (get_elem? heap a)

unfoldable pub pull : Bytes → Fake → Fake
pull image f = record f { images = insert image true f.images }

abbrev pub fresh : ℕ → Spec → Held
fresh now s = record {
  cont = record {
    id = s.id;
    name = s.name;
    status = creating;
    image = s.image;
    created = now;
    started = 0;
    exited_at = 0;
    exit = 0;
    pid = 0;
  };
  stop_closed = false;
  done_closed = false;
}

unfoldable pub create : ℕ → Spec → Fake → Fake × Container
unfolding insert
create now s f = (
  record f {
    images = insert s.image true f.images;
    conts = insert s.id (length f.heap) f.conts;
    heap = f.heap ++ fresh now s ∷ [];
    logs = insert s.id [] f.logs;
    stats = insert s.id no_stats f.stats;
  },
  (fresh now s).cont,
)

abbrev pub set_running : ℕ → ℕ → Held → Held
set_running now pid h = record h {
  cont = record (h.cont) { status = running; started = now; pid = pid };
}

-- the part of Start before the goroutines
unfoldable pub start : ℕ → Bytes → Fake → Fake × Option RuntimeError
unfolding lookup modify
start now id f = elim (lookup id f.conts) [
  | none ↦ (f, some not_found)
  | some a ↦
      (record f { heap = modify (set_running now (length f.conts * 100 + 1)) a f.heap }, none)
]

-- `close(c.done)`: a channel that is closed already makes it panic, which is `none`.
abbrev pub close_done : Held → Option Held
close_done h = if h.done_closed then none else some (record h { done_closed = true })

abbrev pub put_back : ℕ → Fake → Option Held → Option Fake
put_back a f none = none
put_back a f (some h) = some (record f { heap = set f.heap a h })

abbrev pub close_done_of : ℕ → Fake → Option Held → Option Fake
close_done_of a f none = none
close_done_of a f (some h) = put_back a f (close_done h)

-- the first goroutine of Start, up to its wait
unfoldable pub begin : ℕ → Fake → Option Fake
begin a f = close_done_of a f (get_elem? f.heap a)

abbrev pub set_exited : ℕ → Held → Held
set_exited now h = record h {
  cont = record (h.cont) { status = exited; exited_at = now; exit = 0 };
}

-- the rest of it, once the channel `stop` is closed
unfoldable pub finish : ℕ → ℕ → Fake → Fake
unfolding modify
finish now a f = record f { heap = modify (set_exited now) a f.heap }

abbrev pub used : Option Stats → Stats
used none = no_stats
used (some s) = s

-- the sums of int64 wrap
abbrev pub plus_sample : Stats → Stats
plus_sample cur = record cur {
  cpu_usage_milli = add_i64 cur.cpu_usage_milli 50;
  mem_usage_bytes = add_i64 cur.mem_usage_bytes 1048576;
}

-- a tick of the second goroutine
unfoldable pub sample : Bytes → Fake → Fake
unfolding lookup insert
sample id f = record f { stats = insert id (plus_sample (used (lookup id f.stats))) f.stats }

abbrev pub set_stopped : Held → Held
set_stopped h = record h { stop_closed = true }

unfoldable pub stop : Bytes → Fake → Fake × Option RuntimeError
unfolding lookup modify
stop id f = elim (lookup id f.conts) [
  | none ↦ (f, some not_found)
  | some a ↦ (record f { heap = modify set_stopped a f.heap }, none)
]

abbrev pub is_running : Status → Bool
is_running running = true
is_running _ = false

-- whether the container behind a pointer runs
abbrev pub runs : Option Held → Bool
runs none = false
runs (some h) = is_running h.cont.status

unfoldable pub remove : Bytes → Bool → Fake → Fake × Option RuntimeError
unfolding lookup delete
remove id force f = elim (lookup id f.conts) [
  | none ↦ (f, some not_found)
  | some a ↦ if runs (get_elem? f.heap a) && not force then (f, some still_running) else (
    record f { conts = delete id f.conts; logs = delete id f.logs; stats = delete id f.stats },
    none,
  )
]

abbrev pub cont_of : Option Held → Option Container
cont_of none = none
cont_of (some h) = some h.cont

abbrev pub cont_at : Fake → Option ℕ → Option Container
cont_at f none = none
cont_at f (some a) = cont_of (get_elem? f.heap a)

-- nothing is ErrNotFound
unfoldable pub get : Bytes → Fake → Option Container
unfolding lookup
get id f = cont_at f (lookup id f.conts)

abbrev pub listed : Bool → Option Container → List Container → List Container
listed all none rest = rest
listed all (some c) rest = if not all && not (is_running c.status) then rest else c ∷ rest

unfoldable pub list_from : Bool → Fake → Dict ℕ → List Container
list_from all f [] = []
list_from all f ((id, a) ∷ conts) =
    let rest = list_from all f conts in listed all (cont_at f (some a)) rest

unfoldable pub list : Bool → Fake → List Container
unfolding list_from
list all f = list_from all f f.conts

-- All that is buffered, whatever `follow` and `tail` are.
unfoldable pub logs_of : Bytes → Bool → ℕ → Fake → Option Bytes
unfolding lookup
logs_of id follow tail f = lookup id f.logs

unfoldable pub join_cmd : List Bytes → Bytes
join_cmd [] = []
join_cmd (s ∷ []) = s
join_cmd (s ∷ t ∷ cmd) = s ++ b' ' ∷ join_cmd (t ∷ cmd)

abbrev pub echo : List Bytes → Bytes
echo cmd = codes "$ " ++ (join_cmd cmd ++ 10 ∷ [])

-- a write into a buffer that is there
abbrev pub write_to : Bytes → Bytes → Fake → Option Bytes → Fake
write_to id text f none = f
write_to id text f (some buf) = record f { logs = insert id (buf ++ text) f.logs }

-- what is written to stdout
unfoldable pub exec : Bytes → List Bytes → Fake → Fake × Option Bytes
unfolding lookup insert join_cmd
exec id cmd f = elim (lookup id f.conts) [
  | none ↦ (f, none)
  | some a ↦ (write_to id (echo cmd) f (lookup id f.logs), some (echo cmd))
]

unfoldable pub stats_of : Bytes → Fake → Option Stats
unfolding lookup
stats_of id f = lookup id f.stats

abbrev pub ends_line : Bytes → Bool
ends_line [] = false
ends_line (c ∷ []) = c == 10
ends_line (c ∷ d ∷ s) = ends_line (d ∷ s)

abbrev pub with_newline : Bytes → Bytes
with_newline [] = []
with_newline (c ∷ s) = if ends_line (c ∷ s) then c ∷ s else (c ∷ s) ++ 10 ∷ []

unfoldable pub append_log : Bytes → Bytes → Fake → Fake
unfolding lookup insert
append_log id line f = write_to id (with_newline line) f (lookup id f.logs)
