-- ===== src/Companion/Persistence/Recovery.antt =====
-- What a restart reads back from the state file.
use complete_gen_project.Base.{ℕ, ◌≡◌, ◌↔◌, refl, true, List, [], ◌∷◌, arith}
use complete_gen_project.Companion.Persistence.{
  PersistedState, Contents, not_object, loaded, attribute_error, converted, load, save, int_all,
  numbers,
}

int_all-numbers : (ns : List ℕ) → int_all (numbers ns) ≡ converted ns
unfolding int_all
int_all-numbers [] = refl
int_all-numbers (n ∷ ns) = rw (int_all-numbers ns)

-- A state that was saved by a write that the disk took is loaded back as it was, whatever stood in
-- the file before.
pub load-save : (p : PersistedState) (old : Contents) → load (save true p old) ≡ loaded p
unfolding load save
load-save p old = rw (int_all-numbers p.recent_transfer_wallclocks)

-- Loading raises exactly on a document that parses to something that is no object.
pub load-attribute_error_iff : (c : Contents) → (load c ≡ attribute_error) ↔ (c ≡ not_object)
unfolding load
load-attribute_error_iff c = ground arith
