-- ===== src/Tests/Watch.antt =====
-- The watcher on concrete queues and events.
use longctx.Base.{
  ◌<◌, ◌≡◌, ◌⊎◌, refl, String, true, false, none, some, List, [], ◌∷◌, ◌++◌, arith, length,
}
use longctx.Watcher.{
  create, modify, delete, rename, EventType, WatcherEvent, ProjectState, Watcher, get_state,
  add_project, remove_project, pause_project, resume_project, note_query, pending_updates, push,
  enqueue_event, walk, apply, is_due, taken, work_for, ready, drain_ready, WalkedFile,
  changed_events, gone_events, mtime_walk_project, is_dropped, cleaned, cleanup_tick,
}
use longctx.Watcher.Coalesce.{per_path_from, upgrade, fold_rename, coalesce_events}
use longctx.Watcher.Coalesce.Phases.{net}
use longctx.Watcher.Coalesce.Words.{dispatched, OneTouch}
use longctx.Watcher.Coalesce.Net.{coalesce_events-Net}
use longctx.Watcher.Steps.{here, next, drain, IsPending, IsTakenUp}
use longctx.Watcher.Pending.{enqueue_event-IsPending}
use longctx.Watcher.Storm.{drifted, drain-walk_stuck}
use longctx.Watcher.Apply.{Disk, apply_events}
use longctx.Watcher.Applied.{apply_events-IsReady}
use longctx.Indexer.Consistent.{IsConsistent}
use longctx.Indexer.Swap.{Reliable}
use longctx.Tests.Chunks.{small-Fits}
use longctx.Tests.Index.{externals, indexer, stores, changed, stores-IsConsistent, stores-Reliable}

abbrev event : EventType → String → WatcherEvent
event kind path = record {
  project = "p";
  type = kind;
  path = path;
  old_path = none;
  observed_at = 3;
}

-- A file is moved, and another is written anew.
abbrev events : List WatcherEvent
events =
    event delete "b"
    ∷ event create "b"
    ∷ event delete "a"
    ∷ event create "c"
    ∷ event modify "c"
    ∷ event create "c"
    ∷ []

coalesce_run :
    coalesce_events events
    ≡ event modify "b" ∷ (record (event rename "c") { old_path = some "a" }) ∷ []
unfolding coalesce_events per_path_from upgrade fold_rename
coalesce_run = refl

coalesce_events-Net_example :
    (net "a" none (dispatched (coalesce_events events)) ≡ net "a" none events)
    × OneTouch "a" (coalesce_events events)
coalesce_events-Net_example =
    coalesce_events-Net events "a" (refl, (refl, (refl, (refl, (refl, (refl, tt))))))

abbrev quiet : ProjectState
quiet = record {
  name = "p";
  root_path = "/p";
  queue = [];
  last_event_at = 0;
  last_query_at = 5;
  paused = false;
  rescan_pending = false;
  first_missing_at = none;
}

-- Room for one event in a queue, which is due after two milliseconds.
abbrev watcher : Watcher
watcher = record {
  cfg = record {
    debounce_ms = 2;
    queue_size = 1;
    watcher_idle_pause_days = 1;
    missing_root_grace_days = 0;
  };
  states = quiet ∷ [];
}

registry_run :
    (add_project (record watcher { states = [] }) 5 "p" "/p" ≡ watcher)
    × (remove_project watcher "p" ≡ record watcher { states = [] })
    × (note_query (pause_project watcher "p") 5 (some "p") ≡ watcher)
    × (cleanup_tick watcher 90000 (λ root. true)
        ≡ (record watcher { states = record quiet { paused = true } ∷ [] }, []))
    × (cleanup_tick watcher 6 (λ root. false) ≡ (record watcher { states = [] }, "p" ∷ []))
unfolding add_project remove_project note_query pause_project resume_project cleanup_tick is_dropped
    cleaned
registry_run = (refl, refl, refl, refl, refl)

-- An event is due, and a second one overflows the queue.
queue_run :
    ((drain_ready (enqueue_event watcher 3 (event modify "b")) 5).1
      ≡ apply "p" (event modify "b" ∷ []) ∷ [])
    × ((drain_ready (enqueue_event watcher 3 (event modify "b")) 4).1 ≡ [])
    × (pending_updates (enqueue_event watcher 3 (event modify "b")) none ≡ 1)
    × ((drain_ready
          (enqueue_event (enqueue_event watcher 3 (event modify "b")) 3 (event modify "c"))
          3).1
        ≡ walk "p" ∷ [])
unfolding drain_ready enqueue_event push taken ready work_for is_due pending_updates
queue_run = (refl, refl, refl, refl)

abbrev queued_one : Watcher
queued_one = enqueue_event watcher 3 (event modify "b")

enqueue_event-IsPending_example :
    IsPending "p" (event modify "b") (drain_ready queued_one 5).0
    ⊎ IsTakenUp "p" (event modify "b") ([] ++ (drain_ready queued_one 5).1)
enqueue_event-IsPending_example =
    enqueue_event-IsPending "p" watcher (drain_ready queued_one 5).0 3 (event modify "b") quiet
      ([] ++ (drain_ready queued_one 5).1) refl refl (next here (drain queued_one 5))

abbrev overflowed : ProjectState
overflowed = record quiet { rescan_pending = true }

abbrev found : List WalkedFile
found =
    record { rel = "a"; full = "/p/a"; mtime = some 8 }
    ∷ record { rel = "b"; full = "/p/b"; mtime = some 8 }
    ∷ []

drifted_run :
    drifted "p" 6 (λ rel. rel) (("a", 7) ∷ ("d", 7) ∷ []) found
    ≡ record (event modify "/p/a") { observed_at = 6 }
      ∷ record (event create "/p/b") { observed_at = 6 }
      ∷ record (event delete "d") { observed_at = 6 }
      ∷ []
unfolding changed_events gone_events
drifted_run = refl

drifted_many : 1 < length (drifted "p" 6 (λ rel. rel) (("a", 7) ∷ ("d", 7) ∷ []) found)
unfolding changed_events gone_events
drifted_many = omega arith

drain-walk_stuck_example :
    (work_for watcher.cfg 5 overflowed ≡ walk "p" ∷ [])
    × (t : ProjectState) × (get_state "p"
          (mtime_walk_project
            (drain_ready (record watcher { states = overflowed ∷ [] }) 5).0
            6
            "p"
            (λ rel. rel)
            (("a", 7) ∷ ("d", 7) ∷ [])
            (some found)).states
        ≡ some t)
    × (t.queue ≡ [])
    × (t.rescan_pending ≡ true)
drain-walk_stuck_example =
    drain-walk_stuck (record watcher { states = overflowed ∷ [] }) "p" overflowed 5 6 (λ rel. rel)
      (("a", 7) ∷ ("d", 7) ∷ []) found refl refl (omega arith) drifted_many

-- The file of the indexed project, and one that is new to it.
abbrev disk : Disk
disk = record {
  file_at = λ root path. some (record { rel = path; passes = true; file = changed });
  to_rel = λ root path. some path;
  destination = λ root rel. (true, changed);
}

-- A change, a deletion of a file that is not there, and a rename.
abbrev batch : List WatcherEvent
batch =
    event modify "a.txt"
    ∷ event delete "c.txt"
    ∷ record (event rename "b.txt") { old_path = some "a.txt" }
    ∷ []

apply_events-IsReady_example :
    IsConsistent externals (apply_events externals indexer "p" disk watcher stores batch)
    × Reliable externals (apply_events externals indexer "p" disk watcher stores batch)
apply_events-IsReady_example =
    apply_events-IsReady externals indexer refl small-Fits "p" disk watcher stores batch
      (stores-IsConsistent, stores-Reliable)
