-- ===== src/StateDb/Memory.antt =====
-- Nodes in memory with their reference counts, libdevcore/MemoryDB.h and MemoryDB.cpp. A hash is a
-- number and a value a list of bytes.
use utispace_chain.Prelude.{
  ℕ, ◌+◌, ◌-◌, ◌%◌, ◌^◌, List, [], map, none, some, Bool, true, false, not, ◌||◌, ltb, ◌==◌,
  if◌then◌else◌, keep,
}
use utispace_chain.Prelude.Map.{Map, find, insert}

-- What `m_main` and `m_aux` hold under a hash.
pub record MemoryNode : Type 0 where
  pub value : List ℕ
  pub refs : ℕ

pub record Aux : Type 0 where
  pub content : List ℕ
  pub is_live : Bool

pub record MemoryDb : Type 0 where
  pub main : Map MemoryNode
  pub aux : Map Aux
  pub enforce_refs : Bool

-- A node that counts.
abbrev pub is_visible : Bool → MemoryNode → Bool
is_visible enforce n = not enforce || ltb 0 n.refs

-- `lookup(_h)`
unfoldable pub lookup_node : ℕ → MemoryDb → List ℕ
lookup_node h db = elim (find h db.main) [
  | none ↦ []
  | some n ↦ if is_visible db.enforce_refs n then n.value else []
]

-- `exists(_h)`
unfoldable pub exists_node : ℕ → MemoryDb → Bool
exists_node h db = elim (find h db.main) [ none ↦ false | some n ↦ is_visible db.enforce_refs n ]

-- `insert(_h, _v)`: the count is an `unsigned`.
unfoldable pub insert_node : ℕ → List ℕ → MemoryDb → MemoryDb
insert_node h v db = elim (find h db.main) [
  | none ↦ record db { main = insert h record { value = v; refs = 1 } db.main }
  | some n ↦ record db {
    main = insert h record { value = v; refs = (n.refs + 1) % 2 ^ 32 } db.main;
  }
]

-- `kill(_h)`
unfoldable pub kill_node : ℕ → MemoryDb → Bool × MemoryDb
kill_node h db = elim (find h db.main) [
  | none ↦ (false, db)
  | some n ↦
      if ltb 0 n.refs
      then (true, record db { main = insert h record n { refs = n.refs - 1 } db.main })
      else (false, db)
]

-- `lookupAux(_h)`
unfoldable pub lookup_aux : ℕ → MemoryDb → List ℕ
lookup_aux h db = elim (find h db.aux) [
  | none ↦ []
  | some a ↦ if not db.enforce_refs || a.is_live then a.content else []
]

-- `removeAux(_h)`, which leaves an entry where there was none.
unfoldable pub remove_aux : ℕ → MemoryDb → MemoryDb
remove_aux h db = elim (find h db.aux) [
  | none ↦ record db { aux = insert h record { content = []; is_live = false } db.aux }
  | some a ↦ record db { aux = insert h record a { is_live = false } db.aux }
]

-- `insertAux(_h, _v)`
unfoldable pub insert_aux : ℕ → List ℕ → MemoryDb → MemoryDb
insert_aux h v db = record db { aux = insert h record { content = v; is_live = true } db.aux }

-- `purge()`
unfoldable pub purge : MemoryDb → MemoryDb
purge db = record db {
  main = keep (λ e. not (e.1.refs == 0)) db.main;
  aux = keep (λ e. e.1.is_live) db.aux;
}

-- `keys()`
unfoldable pub keys : MemoryDb → List ℕ
keys db = map (λ e. e.0) (keep (λ e. not (e.1.refs == 0)) db.main)

-- `clear()`
abbrev pub clear_nodes : MemoryDb → MemoryDb
clear_nodes db = record db { main = []; aux = [] }
