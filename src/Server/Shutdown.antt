-- ===== src/Server/Shutdown.antt =====
-- The end of `serve` in src/usmp/_server.py, with `stop` of the listeners of
-- src/usmp/transport/tcp.py and udp.py: which tasks are cancelled.
use usmp_python.Prelude.{◌≡◌, Bool, true, ◌||◌, List, [], ◌∷◌, arith, map, All, if◌then◌else◌}
use usmp_python.Transport.Registry.{ListenerClass}

-- A task, and whether it is the one that runs `stop`.
pub record Task : Type 0 where
  pub is_current : Bool
  pub done : Bool
  pub cancelled : Bool

-- `_conn_tasks`, and `_background_tasks` of the UDP listener.
pub record Tasks : Type 0 where
  pub connections : List Task
  pub background : List Task

-- `task.cancel()`, which does nothing to a task that is done.
abbrev pub cancel : Task → Task
cancel t = if t.done then t else record t { cancelled = true }

abbrev pub cancel_other : Task → Task
cancel_other t = if t.is_current || t.done then t else cancel t

-- `stop` of the listener; one that a caller registered is taken to leave the tasks alone.
unfoldable pub stop_tasks : ListenerClass → Tasks → Tasks
stop_tasks ListenerClass.tcp_listener ts = record ts { connections = map cancel ts.connections }
stop_tasks ListenerClass.udp_listener ts = record ts {
  connections = map cancel_other ts.connections;
  background = map cancel_other ts.background;
}
stop_tasks (ListenerClass.custom_listener n) ts = ts

-- The `finally` clause of `serve`: the listener, then what is left of the connections.
unfoldable pub end_serve : ListenerClass → Tasks → Tasks
end_serve cls ts =
    let stopped = stop_tasks cls ts in
    record stopped { connections = map cancel stopped.connections }

abbrev pub Ended : Task → Type 0
Ended t = (t.done || t.cancelled) ≡ true

cancel-Ended : (t : Task) → Ended (cancel t)
cancel-Ended t = ground arith

map-cancel-Ended : (ts : List Task) → All Ended (map cancel ts)
map-cancel-Ended [] = tt
map-cancel-Ended (t ∷ ts) = (cancel-Ended t, map-cancel-Ended ts)

-- When `serve` ends, every task of a connection is done or cancelled, whatever the listener.
pub end_serve-Ended : (cls : ListenerClass) (ts : Tasks) → All Ended (end_serve cls ts).connections
unfolding end_serve
end_serve-Ended cls ts = map-cancel-Ended (stop_tasks cls ts).connections
