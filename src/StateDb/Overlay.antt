-- ===== src/StateDb/Overlay.antt =====
-- The nodes in memory over a database on disk, libdevcore/OverlayDB.cpp. The database is that of
-- LevelDB, of which the code uses that a key reads as what was last put there.
pub mod Committed
use utispace_chain.Prelude.{
  ℕ, List, [], ◌∷◌, ◌++◌, map, Option, none, some, Bool, true, false, not, ◌==◌, ◌≡◌, if◌then◌else◌,
  length, keep,
}
use utispace_chain.Prelude.Map.{Map}
use utispace_chain.StateDb.Memory.{
  MemoryNode, Aux, MemoryDb, lookup_node, exists_node, kill_node, lookup_aux, clear_nodes,
}

-- The key of a node is its hash; that of an aux value has a byte behind the hash.
pub data DiskKey : Type 0 where
  node_key : ℕ → DiskKey
  aux_key : ℕ → DiskKey

abbrev pub same_key : DiskKey → DiskKey → Bool
same_key (node_key a) (node_key b) = a == b
same_key (node_key a) (aux_key b) = false
same_key (aux_key a) (node_key b) = false
same_key (aux_key a) (aux_key b) = a == b

-- What a key reads as after a batch of puts, in their order.
unfoldable pub put_all : List (DiskKey × List ℕ) → DiskKey → List ℕ → List ℕ
put_all [] k old = old
put_all (p ∷ ps) k old = put_all ps k (if same_key (p.0) k then p.1 else old)

-- The database: `Get`, where a missing key reads as an empty value, `Write` of a batch and
-- `Delete`, with what each promises when it succeeds.
pub record LevelDb (D : Type 0) : Type 0 where
  pub get : D → DiskKey → List ℕ
  pub write : List (DiskKey × List ℕ) → D → D
  pub delete : DiskKey → D → D
  pub get-write :
      (ps : List (DiskKey × List ℕ)) (d : D) (k : DiskKey)
      → get (write ps d) k ≡ put_all ps k (get d k)

pub record OverlayDb (D : Type 0) : Type 0 where
  pub memory : MemoryDb
  pub disk : Option D

-- The puts of `commit()`: nodes that are referred to, and live aux values.
unfoldable pub node_puts : Map MemoryNode → List (DiskKey × List ℕ)
node_puts m = map (λ e. (node_key (e.0), e.1.value)) (keep (λ e. not (e.1.refs == 0)) m)

unfoldable pub aux_puts : Map Aux → List (DiskKey × List ℕ)
aux_puts m = map (λ e. (aux_key (e.0), e.1.content)) (keep (λ e. e.1.is_live) m)

module _ {D : Type 0} (level : LevelDb D) where
  -- `commit()`. A write that fails ten times ends the process.
  unfoldable pub commit : OverlayDb D → OverlayDb D
  commit s = elim s.disk [
    | none ↦ s
    | some d ↦ record {
      memory = clear_nodes s.memory;
      disk = some (level.write (node_puts s.memory.main ++ aux_puts s.memory.aux) d);
    }
  ]

  -- What the disk has for a key.
  abbrev pub on_disk : DiskKey → OverlayDb D → List ℕ
  on_disk k s = elim s.disk [ none ↦ [] | some d ↦ level.get d k ]

  -- `lookup(_h)`
  unfoldable pub lookup : ℕ → OverlayDb D → List ℕ
  lookup h s =
      let found = lookup_node h s.memory in
      if length found == 0 then on_disk (node_key h) s else found

  -- `exists(_h)`
  unfoldable pub exists : ℕ → OverlayDb D → Bool
  exists h s = if exists_node h s.memory then true else not (length (on_disk (node_key h) s) == 0)

  -- `lookupAux(_h)`
  unfoldable pub lookup_aux_value : ℕ → OverlayDb D → List ℕ
  lookup_aux_value h s =
      let found = lookup_aux h s.memory in
      if length found == 0 then on_disk (aux_key h) s else found

  -- `rollback()`, which leaves the aux values.
  abbrev pub rollback : OverlayDb D → OverlayDb D
  rollback s = record s { memory = record s.memory { main = [] } }

  -- `kill(_h)`: a node that is not in memory is only logged.
  abbrev pub kill : ℕ → OverlayDb D → OverlayDb D
  kill h s = record s { memory = (kill_node h s.memory).1 }

  -- `deepkill(_h)`, for a database that is open.
  unfoldable pub deepkill : ℕ → OverlayDb D → OverlayDb D
  deepkill h s = elim s.disk [
    | none ↦ kill h s
    | some d ↦ record (kill h s) { disk = some (level.delete (node_key h) d) }
  ]
