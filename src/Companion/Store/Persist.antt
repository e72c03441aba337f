-- ===== src/Companion/Store/Persist.antt =====
-- The saves of the register store (`_persist_sync`, `_persist_async_safe` and `_save_blocking` of
-- ats-pi-companion-main/src/atspi/state.py), and the executor that finishes the queued ones.
use complete_gen_project.Base.{
  ℕ, zero, suc, Bool, Option, none, some, List, [], ◌∷◌, ◌++◌, if◌then◌else◌,
}
use complete_gen_project.Companion.Persistence.{PersistedState, save}
use complete_gen_project.Companion.Store.Model.{StateFile, RegisterStore, Disk}

-- What `_persist_sync` and `_persist_async_safe` write.
unfoldable pub persisted_fields : RegisterStore → PersistedState
persisted_fields s = record {
  transfer_count_lifetime = s.snap.transfer_count_lifetime;
  last_transfer_to_gen_ts = s.snap.last_transfer_to_gen_ts;
  last_retransfer_to_util_ts = s.snap.last_retransfer_to_util_ts;
  recent_transfer_wallclocks = s.transfer_timestamps;
}

-- `_save_blocking`: an OSError is logged and the old document stays.
unfoldable pub save_blocking : Bool → PersistedState → StateFile → StateFile
unfolding save
save_blocking takes_write p f = record f { contents = save takes_write p f.contents }

unfoldable pub persist_sync : Disk → RegisterStore → StateFile → StateFile
unfolding save_blocking persisted_fields
persist_sync d s f = save_blocking d.takes_write (persisted_fields s) f

unfoldable pub persist_async_safe : Disk → RegisterStore → StateFile → StateFile
unfolding save_blocking persisted_fields
persist_async_safe d s f =
    if d.loop_running
    then record f { queued = f.queued ++ persisted_fields s ∷ [] }
    else save_blocking d.takes_write (persisted_fields s) f

remove_at : ℕ → List PersistedState → List PersistedState
remove_at i [] = []
remove_at zero (x ∷ xs) = xs
remove_at (suc i) (x ∷ xs) = x ∷ remove_at i xs

nth : ℕ → List PersistedState → Option PersistedState
nth i [] = none
nth zero (x ∷ xs) = some x
nth (suc i) (x ∷ xs) = nth i xs

-- The executor's threads finish in any order: the queued save at an index reaches the disk.
unfoldable pub finish_queued : ℕ → Bool → StateFile → StateFile
unfolding remove_at nth save_blocking
finish_queued i takes_write f = elim (nth i f.queued) [
  | none ↦ f
  | some p ↦ record (save_blocking takes_write p f) { queued = remove_at i f.queued }
]
